-- ===== src/Dirent.antt =====
-- src/tebako-dirent.cpp and include/tebako-dirent.h: the table of open directories, each with a cache
-- of TEBAKO_DIR_CACHE_SIZE entries. Each call holds the table's lock to its end: readdir and seekdir the
-- one for readers, so that on one stream they are one step only where no other thread is in them. A key is
-- the address of a `tebako_ds`; allocation succeeds, and gives the address that `opendir` is handed.
pub mod Cache
pub mod Listed
pub mod Seek
pub mod Stream
mod Tests
use libdwarfs.Prelude.{
  ℕ, ℤ, pos, Bool, true, false, Option, none, some, [], ◌∷◌, ◌==ℤ◌, if◌then◌else◌,
}
use libdwarfs.Prelude.Maps.{Map, find, assign, erase, nat_eq}
use libdwarfs.Errno.{
  Out, returns, fails, later, dwarfs_io_continue, dwarfs_invalid_fd, dwarfs_io_error, enotdir,
}
use libdwarfs.Root.{Root, Dirent}
use libdwarfs.System.{System}
use libdwarfs.Fd.State.{FdTable, close_fd}
use Cache.{Ds, new_ds, load_cache, readdir_ds, Read}

-- std::map<uintptr_t, std::shared_ptr<tebako_ds>>
abbrev pub DsTable : Type 0
DsTable = Map ℕ Ds

-- The address and the size of the directory, or 0.
unfoldable pub opendir : Root → FdTable → DsTable → ℕ → ℤ → DsTable × Out (ℕ × ℕ)
opendir root fds t address vfd =
    let (ret, e, ds) = load_cache root fds (new_ds vfd) (pos 0) true in
    if ret ==ℤ dwarfs_io_continue
    then (assign address ds t, record { value = (address, ds.dir_size); errno = e })
    else (t, fails (0, 0) enotdir)

unfoldable pub telldir : DsTable → ℕ → ℤ
telldir t dirp = elim (find dirp t) [ none ↦ dwarfs_invalid_fd | some ds ↦ ds.dir_position ]

unfoldable pub seekdir : DsTable → ℕ → ℤ → DsTable × ℤ
seekdir t dirp position = elim (find dirp t) [
  | none ↦ (t, dwarfs_invalid_fd)
  | some ds ↦ (assign dirp (record ds { dir_position = position }) t, dwarfs_io_continue)
]

unfoldable pub dirfd : DsTable → ℕ → ℤ
dirfd t dirp = elim (find dirp t) [ none ↦ dwarfs_invalid_fd | some ds ↦ ds.vfd ]

unfoldable pub readdir : Root → FdTable → DsTable → ℕ → DsTable × Out (ℤ × Option Dirent)
readdir root fds t dirp = elim (find dirp t) [
  | none ↦ (t, returns (dwarfs_invalid_fd, none))
  | some ds ↦
      let r = readdir_ds root fds ds in
      (assign dirp r.ds t, record { value = (r.ret, r.entry); errno = r.errno })
]

-- The descriptor of the directory is closed with it.
module _ (sys : System) where
  open sys use {Os}

  unfoldable pub closedir : FdTable → Os → DsTable → ℕ → FdTable × Os × DsTable × ℤ
  closedir fds os t dirp = elim (find dirp t) [
    | none ↦ (fds, os, t, dwarfs_invalid_fd)
    | some ds ↦ let (fds', os', ret) = close_fd sys fds os ds.vfd in (fds', os', erase dirp t, ret)
  ]

  unfoldable pub close_each : FdTable → Os → DsTable → FdTable × Os
  close_each fds os [] = (fds, os)
  close_each fds os ((dirp, ds) ∷ t) =
      let (fds', os', ret) = close_fd sys fds os ds.vfd in close_each fds' os' t

  unfoldable pub close_all : FdTable → Os → DsTable → FdTable × Os × DsTable
  close_all fds os t = let (fds', os') = close_each fds os t in (fds', os', [])
