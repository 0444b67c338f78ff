-- ===== src/Memfs/Links.antt =====
-- The resolution of a path of names, as what the search in src/tebako-memfs.cpp is measured by: a symbolic
-- link is resolved from the directory that it stands in, and what is left from where it leads. Links whose
-- targets are absolute or have "." or ".." in them are not part of it: the search takes ".." away from
-- the text in front of it before it looks anything up.
pub mod Rounds
pub mod Followed
use libdwarfs.Prelude.{ℕ, pos, suc, ◌+◌, ◌≡◌, true, false, none, some, List, [], ◌∷◌, Bytes}
use libdwarfs.Dwarfs.{Filesystem, is_lnk}
use libdwarfs.Paths.{parse}
use libdwarfs.Paths.Ordinary.{AllEntries}
use libdwarfs.Memfs.State.{Memfs}
use libdwarfs.Memfs.Find.{inode_of}
use libdwarfs.MemfsTable as MemfsTable
use libdwarfs.MemfsTable.{MemfsTable}
use libdwarfs.MountTable as MountTable
use libdwarfs.MountTable.{MountTable, memfs}

-- The view has attributes, and is no symbolic link.
pub record IsNode (fs : Filesystem) (view : ℕ) : Type 0 where
  pub reads : (fs.getattr view).0 ≡ pos 0
  pub plain : is_lnk (fs.getattr view).1.st_mode ≡ false

-- The view is a symbolic link to this relative path of entries.
pub record IsLink (fs : Filesystem) (view : ℕ) (target : List Bytes) : Type 0 where
  pub text : Bytes
  pub reads : (fs.getattr view).0 ≡ pos 0
  pub link : is_lnk (fs.getattr view).1.st_mode ≡ true
  pub to_text : fs.readlink view ≡ (pos 0, text)
  pub parsed : parse text ≡ target
  pub entries : AllEntries target

module _ (mounts : MountTable) (systems : MemfsTable) where
  -- From a directory of an image, a path leads to an inode of an image: no step for no path; down to an
  -- entry that is no link; through a link; or into the image that is mounted over the entry.
  pub data Resolves : Memfs → ℕ → List Bytes → Memfs → ℕ → Type 0 where
    here : {m : Memfs} {v : ℕ} → Resolves m v [] m v
    down :
        {m m' : Memfs} {v w : ℕ} {e : Bytes} {es : List Bytes} (child : ℕ)
        → MountTable.get mounts (inode_of m v, e) ≡ none
        → m.fs.find_at (inode_of m v) e ≡ some child
        → IsNode m.fs child
        → Resolves m child es m' w
        → Resolves m v (e ∷ es) m' w
    link :
        {m n m' : Memfs} {v u w : ℕ} {e t : Bytes} {es ts : List Bytes} (child : ℕ)
        → MountTable.get mounts (inode_of m v, e) ≡ none
        → m.fs.find_at (inode_of m v) e ≡ some child
        → IsLink m.fs child (t ∷ ts)
        → Resolves m v (t ∷ ts) n u
        → Resolves n u es m' w
        → Resolves m v (e ∷ es) m' w
    mounted :
        {m m' : Memfs} {v w : ℕ} {e : Bytes} {es : List Bytes} (index top : ℕ) (other : Memfs)
        → MountTable.get mounts (inode_of m v, e) ≡ some (memfs index)
        → MemfsTable.get systems index ≡ some other
        → other.fs.find other.dwarfs_root_inode ≡ some top
        → IsNode other.fs top
        → Resolves other top es m' w
        → Resolves m v (e ∷ es) m' w

  -- The steps of a resolution, those inside the links included.
  unfoldable pub steps : {m m' : Memfs} {v w : ℕ} {es : List Bytes} → Resolves m v es m' w → ℕ
  steps here = 0
  steps (down child n c h r) = suc (steps r)
  steps (link child n c h r q) = suc (steps r + steps q)
  steps (mounted index top other g s n h r) = suc (steps r)
