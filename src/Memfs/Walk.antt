-- ===== src/Memfs/Walk.antt =====
-- The search in one image without mount points and links, against a walk down its directories; and a
-- link for which the search does not end.
use libdwarfs.Prelude.{
  ℕ, pos, zero, suc, ◌<◌, ◌≡◌, refl, Bool, true, false, Option, none, some, List, [], ◌∷◌, Bytes,
  bytes_eq, length, arith, Option-cases, inl, inr,
}
use libdwarfs.Errno.{dwarfs_io_continue}
use libdwarfs.Dwarfs.{Stat, Filesystem, is_lnk}
use libdwarfs.Root.{Found}
use libdwarfs.Paths.{slash, FsPath, is_empty, parse, append_all, lexically_normal}
use libdwarfs.Memfs.State.{Memfs}
use libdwarfs.MemfsTable.{MemfsTable}
use libdwarfs.MountTable as MountTable
use libdwarfs.MountTable.{MountTable}
use libdwarfs.Memfs.Find.{
  Step, missing, inode_of, process_inode, finish, enter, descend, find_loop, find_inode,
  process_link, follow_link,
}

-- No inode is a symbolic link.
pub record IsLinkFree (fs : Filesystem) : Type 0 where
  pub reads : (v : ℕ) → (fs.getattr v).0 ≡ pos 0
  pub plain : (v : ℕ) → is_lnk (fs.getattr v).1.st_mode ≡ false

-- No directory of the image has a mount point.
abbrev pub IsUnmounted : MountTable → Type 0
IsUnmounted mounts = (inode : ℕ) (e : Bytes) → MountTable.get mounts (inode, e) ≡ none

abbrev pub AllNamed : List Bytes → Type 0
AllNamed [] = Unit {0}
AllNamed (e ∷ es) = (is_empty e ≡ false) × AllNamed es

-- The specification: down one entry at a time.
abbrev pub walk : Memfs → ℕ → List Bytes → Option ℕ
walk m view [] = some view
walk m view (e ∷ es) = elim (m.fs.find_at (inode_of m view) e) [
  | none ↦ none
  | some child ↦ walk m child es
]

abbrev pub reached : Memfs → Bytes → Option ℕ → Found
reached m lnk none = missing lnk
reached m lnk (some view) = record {
  ret = dwarfs_io_continue;
  st = (m.fs.getattr view).1;
  lnk = lnk;
  errno = none;
}

abbrev pub arrived : Memfs → Bytes → ℕ → FsPath → Step
arrived m lnk view rest = record {
  ret = dwarfs_io_continue;
  errno = none;
  st = (m.fs.getattr view).1;
  lnk = lnk;
  rest = rest;
}

pub walk-none :
    (m : Memfs) (view : ℕ) (e : Bytes) (es : List Bytes)
    → m.fs.find_at (inode_of m view) e ≡ none
    → walk m view (e ∷ es) ≡ none
walk-none m view e es n = rw (walk, n) refl

pub walk-some :
    (m : Memfs) (view child : ℕ) (e : Bytes) (es : List Bytes)
    → m.fs.find_at (inode_of m view) e ≡ some child
    → walk m view (e ∷ es) ≡ walk m child es
walk-some m view child e es c = rw (walk, c) refl

pub process_plain :
    (m : Memfs) (view : ℕ) (follow : Bool) (lnk : Bytes) (rest : FsPath)
    → IsLinkFree m.fs
    → process_inode m.fs view follow lnk rest ≡ arrived m lnk view rest
unfolding process_inode
process_plain m view follow lnk rest h = rw (process_inode, h.reads view, h.plain view) refl

module _ (mounts : MountTable) (systems : MemfsTable) (follow : Bool) where
  loop_walk :
      (fuel : ℕ) (m : Memfs) (view : ℕ) (lnk : Bytes) (es : List Bytes)
      → IsLinkFree m.fs
      → IsUnmounted mounts
      → AllNamed es
      → length es < fuel
      → find_loop mounts systems follow fuel m view (arrived m lnk view es)
        ≡ some (reached m lnk (walk m view es))
  unfolding find_loop descend
  loop_walk zero m view lnk es h u a f = absurd (omega arith)
  loop_walk (suc fuel) m view lnk [] h u a f = unfold finish in refl
  loop_walk (suc fuel) m view lnk (e ∷ es) h u a f =
      elim (Option-cases (m.fs.find_at (inode_of m view) e)) [
        | inl n ↦
            rw (find_loop, a.0, u (inode_of m view) e, walk-none m view e es n, descend, n) refl
        | inr (child, c) ↦
            rw
              (
                find_loop,
                a.0,
                u (inode_of m view) e,
                walk-some m view child e es c,
                descend,
                c,
                process_plain m child follow lnk (e ∷ es) h,
              )
              (loop_walk fuel m child lnk es h u a.1 (omega arith))
      ]

  -- In an image without symbolic links, with no mount points, from an inode that is there, along a path
  -- without empty elements, and with more fuel than the path has elements, the search ends. It gives the attributes of the inode that the walk down the directories reaches, or
  -- fails with ENOENT where an entry is missing.
  pub find_inode_lem :
      (fuel : ℕ) (m : Memfs) (start_from view : ℕ) (lnk : Bytes) (es : List Bytes)
      → m.fs.find start_from ≡ some view
      → IsLinkFree m.fs
      → IsUnmounted mounts
      → AllNamed es
      → length es < fuel
      → find_inode mounts systems follow fuel m start_from es lnk
        ≡ some (reached m lnk (walk m view es))
  unfolding find_inode enter
  find_inode_lem fuel m start_from view lnk es s h u a f =
      rw (find_inode, enter, s, process_plain m view follow lnk es h)
        (loop_walk fuel m view lnk es h u a f)

-- The entry is a link with its own name as the target.
pub record IsSelfLink (m : Memfs) (view : ℕ) (e : Bytes) : Type 0 where
  pub child : ℕ
  pub entry : m.fs.find_at (inode_of m view) e ≡ some child
  pub reads : (m.fs.getattr child).0 ≡ pos 0
  pub link : is_lnk (m.fs.getattr child).1.st_mode ≡ true
  pub target : m.fs.readlink child ≡ (pos 0, e)
  pub name : is_empty e ≡ false
  pub plain : lexically_normal (parse e) ≡ e ∷ []
  pub relative : bytes_eq e slash ≡ false

module _ (mounts : MountTable) (systems : MemfsTable) where
  loop_link :
      (fuel : ℕ) (m : Memfs) (view : ℕ) (lnk e : Bytes) (st : Stat)
      → IsSelfLink m view e
      → IsUnmounted mounts
      → find_loop mounts systems true fuel m view
          (record { ret = dwarfs_io_continue; errno = none; st = st; lnk = lnk; rest = e ∷ [] })
        ≡ none
  unfolding find_loop descend process_inode follow_link process_link append_all
  loop_link zero m view lnk e st h u = refl
  loop_link (suc fuel) m view lnk e st h u =
      rw
        (
          find_loop,
          h.name,
          u (inode_of m view) e,
          descend,
          h.entry,
          process_inode,
          h.reads,
          h.link,
          follow_link,
          h.target,
          process_link,
          append_all,
          h.plain,
          h.relative,
        )
        (loop_link fuel m view _ e _ h u)

  -- In a directory without mount points, following a link whose target is its own name, a plain
  -- relative one, does not end: no fuel is enough.
  pub find_inode_link_loop :
      (fuel : ℕ) (m : Memfs) (start_from view : ℕ) (lnk e : Bytes)
      → m.fs.find start_from ≡ some view
      → (m.fs.getattr view).0 ≡ pos 0
      → is_lnk (m.fs.getattr view).1.st_mode ≡ false
      → IsSelfLink m view e
      → IsUnmounted mounts
      → find_inode mounts systems true fuel m start_from (e ∷ []) lnk ≡ none
  unfolding find_inode enter process_inode
  find_inode_link_loop fuel m start_from view lnk e s r d h u =
      rw (find_inode, enter, s, process_inode, r, d) (loop_link fuel m view _ e _ h u)
