-- ===== src/Memfs/Links/Rounds.antt =====
-- One round of the search in src/tebako-memfs.cpp at an entry, at a link and at a mounted image.
use libdwarfs.Prelude.{
  ℕ, suc, ◌≡◌, ◌∙◌, ap, refl, Bool, true, not, ◌||◌, none, some, List, [], ◌∷◌, ◌++◌, Bytes, arith,
}
use libdwarfs.Errno.{dwarfs_io_continue, dwarfs_s_link_relative}
use libdwarfs.Dwarfs.{Stat}
use libdwarfs.Paths.{FsPath, parse, append_all, generic_string}
use libdwarfs.Paths.Append.{append_all-end, append_all-plain}
use libdwarfs.Paths.Ordinary.{
  AllEntries, AllEntries-AllPlain, append-AllEntries, lexically_normal-entries,
}
use libdwarfs.Memfs.State.{Memfs}
use libdwarfs.Memfs.Find.{
  Step, inode_of, at_end, process_link, process_inode, follow_link, enter, cross, descend,
  find_loop,
}
use libdwarfs.Memfs.Walk.{arrived}
use libdwarfs.Memfs.Links.{IsNode, IsLink}
use libdwarfs.MemfsTable as MemfsTable
use libdwarfs.MemfsTable.{MemfsTable}
use libdwarfs.MountTable as MountTable
use libdwarfs.MountTable.{MountTable, memfs}

pub process_node :
    (m : Memfs) (view : ℕ) (follow : Bool) (lnk : Bytes) (rest : FsPath)
    → IsNode m.fs view
    → process_inode m.fs view follow lnk rest ≡ arrived m lnk view rest
unfolding process_inode
process_node m view follow lnk rest h = rw (process_inode, h.reads, h.plain) refl

-- A relative link of entries is put in front of the entries that are left.
process_link-entries :
    (text t : Bytes) (ts rest : List Bytes)
    → parse text ≡ t ∷ ts
    → AllEntries (t ∷ ts)
    → AllEntries rest
    → process_link text rest
      ≡ (dwarfs_s_link_relative, generic_string (t ∷ ts ++ rest), t ∷ ts ++ rest)
unfolding process_link
process_link-entries text t ts rest p a b =
    let both =
      append_all-end (t ∷ ts) rest (AllEntries-AllPlain (t ∷ ts) a) (AllEntries-AllPlain rest b) in
    let kept = lexically_normal-entries (t ∷ ts ++ rest) (append-AllEntries (t ∷ ts) rest a b) in
    rw (process_link, p, both, kept, a.0.inner) refl

-- In front of a path, with these attributes read last.
abbrev pub facing : Bytes → Stat → FsPath → Step
facing lnk st p = record { ret = dwarfs_io_continue; errno = none; st = st; lnk = lnk; rest = p }

-- With nothing to go the attributes are those of the inode, otherwise they are read later.
abbrev pub at : Memfs → Bytes → Stat → ℕ → List Bytes → FsPath → Step
at m lnk st view [] rest = arrived m lnk view rest
at m lnk st view (e ∷ es) rest = facing lnk st (e ∷ es ++ rest)

pub at-arrived :
    (m : Memfs) (lnk : Bytes) (view : ℕ) (es : List Bytes) (rest : FsPath)
    → at m lnk (m.fs.getattr view).1 view es rest ≡ arrived m lnk view (es ++ rest)
at-arrived m lnk view [] rest = refl
at-arrived m lnk view (e ∷ es) rest = refl

or_true : (b : Bool) → (b || true) ≡ true
or_true b = ground arith

module _ (mounts : MountTable) (systems : MemfsTable) where
  module _ (fuel : ℕ) (m : Memfs) (view : ℕ) (lnk e : Bytes) (st : Stat) (p : FsPath)
      (a : AllEntries (e ∷ p)) where
    pub round_node :
        (child : ℕ)
        → MountTable.get mounts (inode_of m view, e) ≡ none
        → m.fs.find_at (inode_of m view) e ≡ some child
        → IsNode m.fs child
        → find_loop mounts systems true (suc fuel) m view (facing lnk st (e ∷ p))
          ≡ find_loop mounts systems true fuel m child (arrived m lnk child p)
    unfolding find_loop descend
    round_node child n c h =
        rw (find_loop, a.0.filled, n, descend, c, process_node m child true lnk (e ∷ p) h) refl

    pub round_link :
        (child : ℕ) (t : Bytes) (ts : List Bytes)
        → MountTable.get mounts (inode_of m view, e) ≡ none
        → m.fs.find_at (inode_of m view) e ≡ some child
        → IsLink m.fs child (t ∷ ts)
        → find_loop mounts systems true (suc fuel) m view (facing lnk st (e ∷ p))
          ≡ find_loop mounts systems true fuel m view
              (facing (generic_string (t ∷ ts ++ p)) (m.fs.getattr child).1 (t ∷ ts ++ p))
    unfolding find_loop descend process_inode follow_link
    round_link child t ts n c h =
        rw
          (
            find_loop,
            a.0.filled,
            n,
            descend,
            c,
            process_inode,
            h.reads,
            h.link,
            or_true (not (at_end p)),
            follow_link,
            h.to_text,
            process_link-entries h.text t ts p h.parsed h.entries a.1,
          )
          refl

    enters :
        (other : Memfs) (top : ℕ)
        → other.fs.find other.dwarfs_root_inode ≡ some top
        → IsNode other.fs top
        → let loop = find_loop mounts systems true fuel in
          enter loop other other.dwarfs_root_inode (append_all [] p) true lnk
          ≡ loop other top (arrived other lnk top p)
    unfolding enter
    enters other top n h =
        let loop = find_loop mounts systems true fuel in
        ap (λ q. enter loop other other.dwarfs_root_inode q true lnk)
          (append_all-plain p (AllEntries-AllPlain p a.1))
        ∙ rw (enter, n, process_node other top true lnk p h) refl

    pub round_mounted :
        (index top : ℕ) (other : Memfs)
        → MountTable.get mounts (inode_of m view, e) ≡ some (memfs index)
        → MemfsTable.get systems index ≡ some other
        → other.fs.find other.dwarfs_root_inode ≡ some top
        → IsNode other.fs top
        → find_loop mounts systems true (suc fuel) m view (facing lnk st (e ∷ p))
          ≡ find_loop mounts systems true fuel other top (arrived other lnk top p)
    unfolding find_loop cross
    round_mounted index top other g s n h =
        rw (find_loop, a.0.filled, g, cross, s) (enters other top n h)
