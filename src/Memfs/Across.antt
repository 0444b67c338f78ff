-- ===== src/Memfs/Across.antt =====
-- A walk down the directories of the mounted images that crosses mount points, as what the search in
-- src/tebako-memfs.cpp is measured by.
pub mod Rounds
pub mod Avoiding
use libdwarfs.Prelude.{
  ℕ, pos, zero, suc, ◌<◌, ◌≡◌, ◌⊎◌, ◌∙◌, ap, sym, subst, refl, Bool, true, false, Option, none,
  some, List, [], ◌∷◌, Bytes, length, arith, Option-cases, inl, inr,
}
use libdwarfs.Errno.{dwarfs_io_continue, dwarfs_s_link_absolute}
use libdwarfs.Root.{Found}
use libdwarfs.Paths.{FsPath, parse, append_all, generic_string, is_absolute, lexically_normal}
use libdwarfs.Paths.Append.{AllPlain, append_all-plain, normal-absolute}
use libdwarfs.Memfs.State.{Memfs}
use libdwarfs.MemfsTable as MemfsTable
use libdwarfs.MemfsTable.{MemfsTable}
use libdwarfs.MountTable as MountTable
use libdwarfs.MountTable.{MountTable, path, memfs}
use libdwarfs.Memfs.Find.{
  missing, inode_of, process_inode, process_link, finish, enter, cross, descend, find_loop,
  find_inode,
}
use libdwarfs.Memfs.Walk.{IsLinkFree, reached, arrived, process_plain}

-- Where a path leads: to no entry, to an inode of an image, or out of memfs, from a directory to a path
-- of the system.
pub data Goal : Type 0 where
  nowhere : Goal
  reaches : Memfs → ℕ → Goal
  leaves : Memfs → ℕ → Bytes → Goal

-- The path of the system that a mount rule gives for what is left behind its place.
abbrev pub mapped : Bytes → List Bytes → Bytes
mapped target es = generic_string (lexically_normal (append_all (parse target) es))

module _ (mounts : MountTable) (systems : MemfsTable) where
  -- The specification: down one entry at a time, and at a mount point into what is mounted there.
  abbrev pub walk_across : Memfs → ℕ → List Bytes → Goal
  walk_across m view [] = reaches m view
  walk_across m view (e ∷ es) = elim (MountTable.get mounts (inode_of m view, e)) [
    | none ↦ elim (m.fs.find_at (inode_of m view) e) [
      | none ↦ nowhere
      | some child ↦ walk_across m child es
    ]
    | some (path target) ↦ leaves m view (mapped target es)
    | some (memfs index) ↦ elim (MemfsTable.get systems index) [
      | none ↦ nowhere
      | some other ↦ elim (other.fs.find other.dwarfs_root_inode) [
        | none ↦ nowhere
        | some top ↦ walk_across other top es
      ]
    ]
  ]

  -- No image has symbolic links, and the rules name absolute paths of the system.
  pub record IsPlainTree : Type 0 where
    pub link_free : (i : ℕ) (m : Memfs) → MemfsTable.get systems i ≡ some m → IsLinkFree m.fs
    pub absolute :
        (inode : ℕ) (e target : Bytes)
        → MountTable.get mounts (inode, e) ≡ some (path target)
        → is_absolute (parse target) ≡ true

abbrev pub landed : Bytes → Goal → Found
landed lnk nowhere = missing lnk
landed lnk (reaches m view) = reached m lnk (some view)
landed lnk (leaves m view text) = record {
  ret = dwarfs_s_link_absolute;
  st = (m.fs.getattr view).1;
  lnk = text;
  errno = none;
}

module _ (mounts : MountTable) (systems : MemfsTable) (m : Memfs) (view : ℕ) (e : Bytes)
    (es : List Bytes) where
  pub across-missing :
      MountTable.get mounts (inode_of m view, e) ≡ none
      → m.fs.find_at (inode_of m view) e ≡ none
      → walk_across mounts systems m view (e ∷ es) ≡ nowhere
  across-missing n f = rw (walk_across, n, f) refl

  pub across-child :
      (child : ℕ)
      → MountTable.get mounts (inode_of m view, e) ≡ none
      → m.fs.find_at (inode_of m view) e ≡ some child
      → walk_across mounts systems m view (e ∷ es) ≡ walk_across mounts systems m child es
  across-child child n f = rw (walk_across, n, f) refl

  pub across-path :
      (target : Bytes)
      → MountTable.get mounts (inode_of m view, e) ≡ some (path target)
      → walk_across mounts systems m view (e ∷ es) ≡ leaves m view (mapped target es)
  across-path target g = rw (walk_across, g) refl

  pub across-unmounted :
      (index : ℕ)
      → MountTable.get mounts (inode_of m view, e) ≡ some (memfs index)
      → MemfsTable.get systems index ≡ none
      → walk_across mounts systems m view (e ∷ es) ≡ nowhere
  across-unmounted index g s = rw (walk_across, g, s) refl

  pub across-rootless :
      (index : ℕ) (other : Memfs)
      → MountTable.get mounts (inode_of m view, e) ≡ some (memfs index)
      → MemfsTable.get systems index ≡ some other
      → other.fs.find other.dwarfs_root_inode ≡ none
      → walk_across mounts systems m view (e ∷ es) ≡ nowhere
  across-rootless index other g s f = rw (walk_across, g, s, f) refl

  pub across-mounted :
      (index : ℕ) (other : Memfs) (top : ℕ)
      → MountTable.get mounts (inode_of m view, e) ≡ some (memfs index)
      → MemfsTable.get systems index ≡ some other
      → other.fs.find other.dwarfs_root_inode ≡ some top
      → walk_across mounts systems m view (e ∷ es) ≡ walk_across mounts systems other top es
  across-mounted index other top g s f = rw (walk_across, g, s, f) refl
