-- ===== src/Fd/Open.antt =====
-- sync_tebako_fdtable::open, openat and fstatat. The two first share one switch over the result of the
-- search, `settle`. Allocations succeed, so `bad_alloc` and a null `new int` do not arise.
use libdwarfs.Prelude.{
  ℕ, ℤ, pos, Bool, Option, none, some, Bytes, not, ◌&&◌, ◌||◌, ◌==ℤ◌, if◌then◌else◌,
}
use libdwarfs.Errno.{
  Errno, Out, returns, fails, later, dwarfs_io_continue, dwarfs_io_error, dwarfs_s_link_outside,
  erofs, enotdir, eloop, emfile, enoent, eacces,
}
use libdwarfs.Dwarfs.{Stat, is_dir, is_lnk}
use libdwarfs.Root.{Root, Found}
use libdwarfs.System.{System}
use libdwarfs.Fd.State.{FdTable, store, fstat}

-- The bits of `flags` that the code tests.
pub record OpenFlags : Type 0 where
  pub o_rdwr : Bool
  pub o_wronly : Bool
  pub o_trunc : Bool
  pub o_creat : Bool
  pub o_directory : Bool
  pub o_nofollow : Bool

abbrev pub wants_write : OpenFlags → Bool
wants_write f = f.o_rdwr || f.o_wronly || f.o_trunc || f.o_creat

abbrev pub x_ok : ℕ
x_ok = 1

-- The result, `lnk` and errno after the call, and the state that it leaves.
pub record Opened (Os : Type 0) : Type 0 where
  pub ret : ℤ
  pub lnk : Bytes
  pub errno : Option Errno
  pub table : FdTable
  pub os : Os

module _ (sys : System) where
  open sys use {Os, dup}

  abbrev pub refuse : FdTable → Os → Bytes → Errno → Opened Os
  refuse t os l e = record { ret = dwarfs_io_error; lnk = l; errno = some e; table = t; os = os }

  -- A dummy descriptor of the system names the new entry.
  unfoldable pub take_descriptor : FdTable → Os → Found → Opened Os
  take_descriptor t os f = elim (dup os) [
    | none ↦ refuse t os f.lnk emfile
    | some (n, os') ↦
        let stored =
          store sys t os' (pos n) (record { st = f.st; position = 0; lock = 0; handle = some n }) in
        record { ret = pos n; lnk = f.lnk; errno = f.errno; table = stored.0; os = stored.1 }
  ]

  unfoldable pub settle : FdTable → Os → OpenFlags → Found → Opened Os
  settle t os flags f =
      if f.ret ==ℤ dwarfs_io_continue
      then (if wants_write flags
          then refuse t os f.lnk erofs
          else if not (is_dir f.st.st_mode) && flags.o_directory
          then refuse t os f.lnk enotdir
          else if is_lnk f.st.st_mode && flags.o_nofollow
          then refuse t os f.lnk eloop
          else take_descriptor t os f)
      else if f.ret ==ℤ dwarfs_s_link_outside
      then record { ret = dwarfs_s_link_outside; lnk = f.lnk; errno = f.errno; table = t; os = os }
      else refuse t os f.lnk (if wants_write flags then erofs else enoent)

  unfoldable pub open_path : Root → FdTable → Os → Bytes → OpenFlags → Bytes → Opened Os
  open_path root t os path flags lnk = settle t os flags (root.stat path (not flags.o_nofollow) lnk)

  -- Behind `fstat`, for the directory that the descriptor names.
  unfoldable pub open_in : Root → FdTable → Os → Stat → Bytes → OpenFlags → Bytes → Opened Os
  open_in root t os st path flags lnk =
      if not (is_dir st.st_mode)
      then refuse t os lnk enotdir
      else if (root.inode_access st.st_ino x_ok).value ==ℤ dwarfs_io_continue
      then settle t os flags (
          let f = root.inode_relative_stat st.st_ino path (not flags.o_nofollow) lnk in
          record f { errno = later (root.inode_access st.st_ino x_ok).errno f.errno })
      else refuse t os lnk eacces

  unfoldable pub openat : Root → FdTable → Os → ℤ → Bytes → OpenFlags → Bytes → Opened Os
  openat root t os vfd path flags lnk = elim (fstat t vfd).1 [
    | none ↦ record { ret = (fstat t vfd).0; lnk = lnk; errno = none; table = t; os = os }
    | some st ↦ open_in root t os st path flags lnk
  ]

-- The state stays as it is. `*st` and `lnk` are written by the search only.
unfoldable pub fstatat : Root → FdTable → ℤ → Bytes → Bytes → Bool → Out (ℤ × Option Found)
fstatat root t vfd path lnk follow = elim (fstat t vfd).1 [
  | none ↦ returns ((fstat t vfd).0, none)
  | some st ↦
      let a = root.inode_access st.st_ino x_ok in
      let f = root.inode_relative_stat st.st_ino path follow lnk in
      if not (is_dir st.st_mode)
      then fails (dwarfs_io_error, none) enotdir
      else if a.value ==ℤ dwarfs_io_continue
      then record { value = (f.ret, some f); errno = later a.errno f.errno }
      else record { value = (a.value, none); errno = a.errno }
]
