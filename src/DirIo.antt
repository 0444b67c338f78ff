-- ===== src/DirIo.antt =====
-- The functions that stand in for the system's calls on directories: src/dir-io.cpp. A `DIR*` is one of
-- memfs (the table of streams), or one that the system's opendir gave (the set of `Kfd`), or bad.
pub mod Closed
mod Tests
use libdwarfs.Prelude.{
  ℕ, ℤ, pos, ltb_ℤ, ◌==◌, ◌==ℤ◌, length, Bool, true, false, not, Option, none, some, List, [],
  Bytes, if◌then◌else◌,
}
use libdwarfs.Errno.{
  Errno, Out, returns, fails, dwarfs_io_error, dwarfs_invalid_fd, dwarfs_s_link_outside, enoent,
  ebadf, efault,
}
use libdwarfs.Root.{Root, Dirent}
use libdwarfs.System.{System}
use libdwarfs.Cwd.{Cwd, to_tebako_path}
use libdwarfs.Kfd as Kfd
use libdwarfs.Kfd.{KfdTable}
use libdwarfs.Fd.State.{FdTable}
use libdwarfs.Fd.Open.{OpenFlags, open_path}
use libdwarfs.Dirent as Table
use libdwarfs.Dirent.{DsTable}
use libdwarfs.Dirent.Stream.{scan_loop, scan_errno}
use libdwarfs.Calls.{Answer, answered, passed}

pub record Dirs (Os : Type 0) : Type 0 where
  pub fds : FdTable
  pub os : Os
  pub streams : DsTable
  pub kfd : KfdTable

-- A pointer that memfs does not have.
unfoldable pub other_dir : {A : Type 0} → KfdTable → ℕ → A → Answer A ℕ
other_dir kfd dirp failure =
    if not (Kfd.check kfd dirp) then answered (fails failure ebadf) else passed dirp

abbrev pub o_rdonly_directory : OpenFlags
o_rdonly_directory = record {
  o_rdwr = false;
  o_wronly = false;
  o_trunc = false;
  o_creat = false;
  o_directory = true;
  o_nofollow = false;
}

module _ (sys : System) (root : Root) where
  open sys use {Os}

  unfoldable pub tebako_closedir : Dirs Os → ℕ → Dirs Os × Answer ℤ ℕ
  tebako_closedir s dirp =
      let (fds, os, streams, ret) = Table.closedir sys s.fds s.os s.streams dirp in
      let closed = record s { fds = fds; os = os; streams = streams } in
      if ret ==ℤ dwarfs_invalid_fd
      then (if not (Kfd.check s.kfd dirp)
          then (closed, answered (fails dwarfs_io_error ebadf))
          else (record closed { kfd = Kfd.remove s.kfd dirp }, passed dirp))
      else (closed, answered (returns ret))

  unfoldable pub tebako_readdir : Dirs Os → ℕ → Dirs Os × Answer (Option Dirent) ℕ
  tebako_readdir s dirp =
      let (streams, out) = Table.readdir root s.fds s.streams dirp in
      (
        record s { streams = streams },
        if out.value.0 ==ℤ dwarfs_invalid_fd
            then other_dir s.kfd dirp none
            else answered (record { value = out.value.1; errno = out.errno }),
      )

  unfoldable pub tebako_telldir : Dirs Os → ℕ → Answer ℤ ℕ
  tebako_telldir s dirp =
      if Table.telldir s.streams dirp ==ℤ dwarfs_invalid_fd
      then other_dir s.kfd dirp dwarfs_io_error
      else answered (returns (Table.telldir s.streams dirp))

  unfoldable pub tebako_seekdir : Dirs Os → ℕ → ℤ → Dirs Os × Answer (Unit {0}) ℕ
  tebako_seekdir s dirp loc =
      let (streams, ret) = Table.seekdir s.streams dirp loc in
      (
        record s { streams = streams },
        if ret ==ℤ dwarfs_invalid_fd then other_dir s.kfd dirp tt else answered (returns tt),
      )

  unfoldable pub tebako_dirfd : Dirs Os → ℕ → Answer ℤ ℕ
  tebako_dirfd s dirp =
      if Table.dirfd s.streams dirp ==ℤ dwarfs_invalid_fd
      then other_dir s.kfd dirp dwarfs_io_error
      else answered (returns (Table.dirfd s.streams dirp))

  -- The system's opendir and fdopendir give an address, or 0. `address` is where memfs would put a new
  -- stream.
  module _ (sys_opendir : Bytes → Out ℕ) (sys_fdopendir : ℤ → Out ℕ) (address : ℕ) where
    unfoldable pub remember : Dirs Os → Out ℕ → Dirs Os × Out ℕ
    remember s out =
        (if out.value == 0 then s else record s { kfd = Kfd.insert s.kfd out.value }, out)

    -- Behind the open of the directory: the stream, or the pointer of the system.
    unfoldable pub open_stream : Dirs Os → ℤ → Bytes → Option Errno → Dirs Os × Out ℕ
    open_stream s vfd r_dirname e =
        let (streams, out) = Table.opendir root s.fds s.streams address vfd in
        if vfd ==ℤ dwarfs_s_link_outside
        then remember s (sys_opendir r_dirname)
        else if vfd ==ℤ dwarfs_invalid_fd
        then (s, fails 0 enoent)
        else if vfd ==ℤ dwarfs_io_error
        then (s, record { value = 0; errno = e })
        else (record s { streams = streams }, record { value = out.value.0; errno = out.errno })

    unfoldable pub tebako_opendir : Cwd → Dirs Os → Option Bytes → Dirs Os × Out ℕ
    tebako_opendir cwd s none = (s, fails 0 enoent)
    tebako_opendir cwd s (some dirname) = elim (to_tebako_path cwd dirname) [
      | none ↦ remember s (sys_opendir dirname)
      | some p ↦
          let r = open_path sys root s.fds s.os p o_rdonly_directory dirname in
          open_stream (record s { fds = r.table; os = r.os }) r.ret r.lnk r.errno
    ]

    unfoldable pub tebako_fdopendir : Dirs Os → ℤ → Dirs Os × Out ℕ
    tebako_fdopendir s vfd =
        let (streams, out) = Table.opendir root s.fds s.streams address vfd in
        if out.value.0 == 0
        then remember (record s { streams = streams }) (sys_fdopendir vfd)
        else (record s { streams = streams }, record { value = out.value.0; errno = out.errno })

  -- The stream is opened, read to its end and closed. `sort` is qsort with `compar`, if one is given.
  module _ (address : ℕ) (sel : Dirent → Bool) (sort : List Dirent → List Dirent) where
    unfoldable pub scan_stream : ℕ → Dirs Os → ℤ → Option (Dirs Os × Out (ℤ × List Dirent))
    scan_stream fuel s vfd =
        let (streams, out) = Table.opendir root s.fds s.streams address vfd in
        let (fds, os, rest, ret) = Table.closedir sys s.fds s.os streams address in
        if out.value.0 == 0
        then some (
          record s { streams = streams },
          record { value = (dwarfs_io_error, []); errno = out.errno },
        )
        else elim (scan_loop fuel root s.fds streams address sel) [
          | none ↦ none
          | some list ↦ some (
            record s { fds = fds; os = os; streams = rest },
            record {
              value = (pos (length list), sort list);
              errno = scan_errno fuel root s.fds streams address;
            },
          )
        ]

    -- `has_namelist` tells whether `namelist` is given.
    unfoldable pub tebako_scandir :
        ℕ → Cwd → Dirs Os → Option Bytes → Bool → Option (Dirs Os × Answer (ℤ × List Dirent) Bytes)
    tebako_scandir fuel cwd s none has_namelist =
        some (s, answered (fails (dwarfs_io_error, []) enoent))
    tebako_scandir fuel cwd s (some dirname) has_namelist = elim (to_tebako_path cwd dirname) [
      | none ↦ some (s, passed dirname)
      | some p ↦
          let r = open_path sys root s.fds s.os p o_rdonly_directory dirname in
          let s' : Dirs Os = record s { fds = r.table; os = r.os } in
          if r.ret ==ℤ dwarfs_s_link_outside
          then some (s', passed r.lnk)
          else if not has_namelist
          then some (s', answered (fails (dwarfs_io_error, []) efault))
          else if r.ret ==ℤ dwarfs_invalid_fd
          then some (s', answered (fails (dwarfs_io_error, []) enoent))
          else if ltb_ℤ r.ret (pos 0)
          then some (s', answered (record { value = (dwarfs_io_error, []); errno = r.errno }))
          else elim (scan_stream fuel s' r.ret) [
            | none ↦ none
            | some (s'', out) ↦ some (s'', answered out)
          ]
    ]
