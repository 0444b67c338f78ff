-- ===== src/FileIo.antt =====
-- The functions that stand in for the system's calls on files: src/file-io.cpp. A descriptor that the
-- table does not have goes to the system, if the system knows it.
pub mod Foreign
pub mod Loadable
mod Tests
use libdwarfs.Prelude.{
  ℕ, ℤ, pos, negsuc, ◌==ℤ◌, Bool, true, false, not, ◌||◌, Option, none, some, List, [], Bytes,
  if◌then◌else◌,
}
use libdwarfs.Errno.{
  Errno, Out, returns, fails, dwarfs_io_error, dwarfs_invalid_fd, dwarfs_s_link_outside, enoent,
  ebadf, enotsup,
}
use libdwarfs.Dwarfs.{Stat}
use libdwarfs.Root.{Root, Found}
use libdwarfs.System.{System}
use libdwarfs.Paths.{parse, is_absolute}
use libdwarfs.Cwd.{Cwd, to_tebako_path}
use libdwarfs.Fd.State.{Fd, FdTable, close_fd, fstat, flock, is_valid_file_descriptor}
use libdwarfs.Fd.Seek.{Whence, lseek}
use libdwarfs.Fd.Read.{read, pread, readv}
use libdwarfs.Fd.Open.{OpenFlags, open_path, openat, fstatat}
use libdwarfs.Memfs.Find.{unread}
use libdwarfs.MemfsTable.{MemfsTable}
use libdwarfs.Calls.{Answer, answered, passed, tebako_stat, tebako_lstat}

-- The arguments of a call of the system: the directory's descriptor, for the calls that take one, and
-- the path.
abbrev pub Target : Type 0
Target = Option ℤ × Bytes

abbrev pub by_path : {A : Type 0} → Answer A Bytes → Answer A Target
by_path (answered out) = answered out
by_path (passed path) = passed (none, path)

abbrev pub at_fdcwd : ℤ
at_fdcwd = negsuc 99

module _ (sys : System) (root : Root) (cwd : Cwd) where
  open sys use {Os}

  -- The mode goes with the flags to the system.
  unfoldable pub tebako_open :
      FdTable → Os → Option Bytes → OpenFlags → FdTable × Os × Answer ℤ Target
  tebako_open t os none flags = (t, os, answered (fails dwarfs_io_error enoent))
  tebako_open t os (some path) flags = elim (to_tebako_path cwd path) [
    | none ↦ (t, os, passed (none, path))
    | some p ↦
        let r = open_path sys root t os p flags path in
        (
          r.table,
          r.os,
          if r.ret ==ℤ dwarfs_s_link_outside
              then passed (none, r.lnk)
              else answered (record { value = r.ret; errno = r.errno }),
        )
  ]

  unfoldable pub tebako_openat :
      FdTable → Os → ℤ → Bytes → OpenFlags → FdTable × Os × Answer ℤ Target
  tebako_openat t os vfd path flags =
      let r = openat sys root t os vfd path flags [] in
      if is_absolute (parse path) || vfd ==ℤ at_fdcwd then tebako_open t os (some path) flags else (
        r.table,
        r.os,
        if r.ret ==ℤ dwarfs_invalid_fd
            then passed (some vfd, path)
            else if r.ret ==ℤ dwarfs_s_link_outside
            then passed (some vfd, r.lnk)
            else answered (record { value = r.ret; errno = r.errno }),
      )

-- is_valid_system_file_descriptor, the system's answer, where memfs has no such descriptor.
unfoldable pub hand_over : {A : Type 0} → (ℤ → Bool) → ℤ → A → Answer A ℤ
hand_over is_valid_system vfd failure =
    if is_valid_system vfd then passed vfd else answered (fails failure ebadf)

module _ (is_valid_system : ℤ → Bool) where
  unfoldable pub tebako_lseek : FdTable → ℤ → ℤ → Whence → FdTable × Answer ℤ ℤ
  tebako_lseek t vfd offset whence =
      let (t', out) = lseek t vfd offset whence in
      (
        t',
        if out.value ==ℤ dwarfs_invalid_fd
            then hand_over is_valid_system vfd dwarfs_io_error
            else answered out,
      )

  unfoldable pub tebako_read : Root → FdTable → ℤ → ℕ → FdTable × Answer (ℤ × Bytes) ℤ
  tebako_read root t vfd nbyte =
      let (t', out) = read root t vfd nbyte in
      (
        t',
        if out.value.0 ==ℤ dwarfs_invalid_fd
            then hand_over is_valid_system vfd (dwarfs_io_error, [])
            else answered out,
      )

  unfoldable pub tebako_readv :
      Root → FdTable → ℤ → List ℕ → ℤ → FdTable × Answer (ℤ × List Bytes) ℤ
  tebako_readv root t vfd iov iovcnt =
      let (t', out) = readv root t vfd iov iovcnt in
      (
        t',
        if out.value.0 ==ℤ dwarfs_invalid_fd
            then hand_over is_valid_system vfd (dwarfs_io_error, [])
            else answered out,
      )

  unfoldable pub tebako_pread : Root → FdTable → ℤ → ℕ → ℤ → Answer (ℤ × Bytes) ℤ
  tebako_pread root t vfd nbyte offset =
      let out = pread root t vfd nbyte offset in
      if out.value.0 ==ℤ dwarfs_invalid_fd
      then hand_over is_valid_system vfd (dwarfs_io_error, [])
      else answered out

  unfoldable pub tebako_close :
      (sys : System) → FdTable → sys.Os → ℤ → FdTable × sys.Os × Answer ℤ ℤ
  tebako_close sys t os vfd =
      let (t', os', ret) = close_fd sys t os vfd in
      (
        t',
        os',
        if ret ==ℤ dwarfs_invalid_fd
            then hand_over is_valid_system vfd dwarfs_io_error
            else answered (returns ret),
      )

  unfoldable pub tebako_fstat : FdTable → ℤ → Answer (ℤ × Option Stat) ℤ
  tebako_fstat t vfd =
      if (fstat t vfd).0 ==ℤ dwarfs_invalid_fd
      then hand_over is_valid_system vfd (dwarfs_io_error, none)
      else answered (returns (fstat t vfd))

  unfoldable pub tebako_flock : FdTable → ℤ → ℕ → FdTable × Answer ℤ ℤ
  tebako_flock t vfd operation =
      let (t', ret) = flock t vfd operation in
      (
        t',
        if ret ==ℤ dwarfs_invalid_fd
            then hand_over is_valid_system vfd dwarfs_io_error
            else answered (returns ret),
      )

  unfoldable pub tebako_fgetattrlist : FdTable → ℤ → Answer ℤ ℤ
  tebako_fgetattrlist t vfd =
      if (fstat t vfd).0 ==ℤ dwarfs_invalid_fd
      then hand_over is_valid_system vfd dwarfs_io_error
      else answered (fails dwarfs_io_error enotsup)

  -- `nofollow` is the bit AT_SYMLINK_NOFOLLOW.
  unfoldable pub tebako_fstatat :
      Root → MemfsTable → Cwd → FdTable → ℤ → Bytes → Bool → Answer (ℤ × Stat) Target
  tebako_fstatat root systems cwd t vfd path nofollow =
      let r = fstatat root t vfd path [] (not nofollow) in
      if is_absolute (parse path) || vfd ==ℤ at_fdcwd
      then by_path (
          if nofollow
          then tebako_lstat root systems cwd (some path)
          else tebako_stat root systems cwd (some path))
      else if r.value.0 ==ℤ dwarfs_invalid_fd
      then (if is_valid_system vfd
          then passed (some vfd, path)
          else answered (fails (dwarfs_io_error, unread) ebadf))
      else elim r.value.1 [
        | none ↦ answered (record { value = (r.value.0, unread); errno = r.errno })
        | some f ↦
            if f.ret ==ℤ dwarfs_s_link_outside
            then by_path (tebako_stat root systems cwd (some f.lnk))
            else answered (record { value = (f.ret, f.st); errno = r.errno })
      ]

unfoldable pub is_tebako_file_descriptor : FdTable → ℤ → ℤ
is_tebako_file_descriptor t vfd = if is_valid_file_descriptor t vfd then dwarfs_io_error else pos 0
