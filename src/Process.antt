-- ===== src/Process.antt =====
-- The process: sequences of the calls of src/file-io.cpp, src/dir-io.cpp, src/file-ctl.cpp and
-- src/tebako-io-root.cpp that change its tables, in any order, and between them whatever the rest of the
-- program does to the system's descriptors without closing those of memfs. A call of a table is one step,
-- since it holds the table's lock: for readers where it changes one descriptor or stream only, so that the
-- steps are those of threads that do not use the same one at the same time (Fd.Shared has such threads).
pub mod Adjusts
pub mod Tables
pub mod Sound
pub mod Unmount
pub mod Remount
mod Tests
use libdwarfs.Prelude.{ℕ, ℤ, pos, ◌==ℤ◌, ◌≡◌, Bool, true, Option, none, some, List, Bytes}
use libdwarfs.Errno.{Out}
use libdwarfs.Dwarfs.{Stat, Filesystem}
use libdwarfs.Root.{Root}
use libdwarfs.System.{System}
use libdwarfs.Cwd.{Cwd}
use libdwarfs.Fd.Open.{OpenFlags}
use libdwarfs.Fd.Seek.{Whence}
use libdwarfs.Dirent as Dirent
use libdwarfs.Memfs.State.{Memfs}
use libdwarfs.FileIo.{
  tebako_open, tebako_openat, tebako_close, tebako_read, tebako_readv, tebako_lseek, tebako_flock,
}
use libdwarfs.Calls.{tebako_chdir}
use libdwarfs.IoRoot.{State, mount_memfs, mount_root_memfs, unmount_root_memfs}
use libdwarfs.Search.{search_root}

module _ (sys : System) (blank : Filesystem) (parse : Memfs → Option Bytes → Option Filesystem)
    (sys_stat : Bytes → Out (ℤ × Stat)) (sys_chdir : Bytes → Out ℤ) (is_valid_system : ℤ → Bool)
    (fuel : ℕ) where
  open sys use {Os, is_open}

  abbrev pub root_of : State Os → Root
  root_of s = search_root s.mounts s.file_systems s.cwd sys_stat fuel

  -- Every descriptor that was open is open.
  abbrev pub Spares : Os → Os → Type 0
  Spares os os' = (n : ℕ) → is_open os n ≡ true → is_open os' n ≡ true

  abbrev pub opened : State Os → Option Bytes → OpenFlags → State Os
  opened s path flags =
      let r = tebako_open sys (root_of s) s.cwd s.fds s.os path flags in
      record s { fds = r.0; os = r.1 }

  abbrev pub opened_at : State Os → ℤ → Bytes → OpenFlags → State Os
  opened_at s vfd path flags =
      let r = tebako_openat sys (root_of s) s.cwd s.fds s.os vfd path flags in
      record s { fds = r.0; os = r.1 }

  abbrev pub closed : State Os → ℤ → State Os
  closed s vfd =
      let r = tebako_close is_valid_system sys s.fds s.os vfd in record s { fds = r.0; os = r.1 }

  abbrev pub closed_dir : State Os → ℕ → State Os
  closed_dir s dirp =
      let r = Dirent.closedir sys s.fds s.os s.streams dirp in
      record s { fds = r.0; os = r.1; streams = r.2 }

  -- The calls on a directory are those of its table: `tebako_opendir` is `opens` and then `opens_dir`.
  pub data Step : State Os → State Os → Type 0 where
    opens : {s : State Os} (path : Option Bytes) (flags : OpenFlags) → Step s (opened s path flags)
    opens_at :
        {s : State Os} (vfd : ℤ) (path : Bytes) (flags : OpenFlags)
        → Step s (opened_at s vfd path flags)
    closes : {s : State Os} (vfd : ℤ) → Step s (closed s vfd)
    reads :
        {s : State Os} (vfd : ℤ) (nbyte : ℕ)
        → Step s (record s { fds = (tebako_read is_valid_system (root_of s) s.fds vfd nbyte).0 })
    reads_vector :
        {s : State Os} (vfd : ℤ) (iov : List ℕ) (iovcnt : ℤ)
        → Step s
            (record s { fds = (tebako_readv is_valid_system (root_of s) s.fds vfd iov iovcnt).0 })
    seeks :
        {s : State Os} (vfd offset : ℤ) (whence : Whence)
        → Step s (record s { fds = (tebako_lseek is_valid_system s.fds vfd offset whence).0 })
    locks :
        {s : State Os} (vfd : ℤ) (operation : ℕ)
        → Step s (record s { fds = (tebako_flock is_valid_system s.fds vfd operation).0 })
    opens_dir :
        {s : State Os} (address : ℕ) (vfd : ℤ)
        → Step s (record s { streams = (Dirent.opendir (root_of s) s.fds s.streams address vfd).0 })
    reads_dir :
        {s : State Os} (dirp : ℕ)
        → Step s (record s { streams = (Dirent.readdir (root_of s) s.fds s.streams dirp).0 })
    seeks_dir :
        {s : State Os} (dirp : ℕ) (position : ℤ)
        → Step s (record s { streams = (Dirent.seekdir s.streams dirp position).0 })
    closes_dir : {s : State Os} (dirp : ℕ) → Step s (closed_dir s dirp)
    changes_dir :
        {s : State Os} (path : Option Bytes)
        → Step s (record s {
          cwd = (tebako_chdir (root_of s) s.file_systems s.cwd sys_stat sys_chdir path).0;
        })
    mounts_image :
        {s : State Os} (data_at size : ℕ) (image_offset : Option Bytes) (parent : ℕ)
        (folder : Bytes)
        → Step s (mount_memfs sys blank parse s data_at size image_offset parent folder).0
    mounts_root :
        {s : State Os} (data_at size : ℕ) (image_offset : Option Bytes)
        → Step s (mount_root_memfs sys blank parse s data_at size image_offset).0
    unmounts : {s : State Os} → Step s (unmount_root_memfs sys blank parse s)
    others : {s : State Os} (os : Os) → Spares s.os os → Step s (record s { os = os })

  pub data Reach (s : State Os) : State Os → Type 0 where
    here : Reach s s
    next : {t u : State Os} → Reach s t → Step t u → Reach s u
