-- ===== src/Dl/Foreign.antt =====
-- The system's calls that src/dl-ctl.cpp makes, and the tebako_* calls that it makes on the file in
-- memfs, carried to their end: where these hand a call over, the system's answer is theirs.
use libdwarfs.Prelude.{ℕ, ℤ, Bool, false, Option, none, some, Bytes}
use libdwarfs.Errno.{dwarfs_io_error}
use libdwarfs.Dwarfs.{Stat}
use libdwarfs.Root.{Root}
use libdwarfs.System.{System}
use libdwarfs.Cwd.{Cwd}
use libdwarfs.Memfs.Find.{unread}
use libdwarfs.Fd.State.{FdTable}
use libdwarfs.Fd.Open.{OpenFlags}
use libdwarfs.Calls.{answered, passed}
use libdwarfs.FileIo.{Target, tebako_open, tebako_fstat, tebako_read, tebako_close}

-- `create` is ::open with O_WRONLY | O_CREAT, the path and the mode; `none` is -1.
-- `create_directories` is `none` where it throws.
pub record Host (sys : System) : Type 0 where
  pub open_read : sys.Os → Target → ℤ × sys.Os
  pub fstat : sys.Os → ℤ → ℤ × Stat
  pub read : sys.Os → ℤ → ℕ → (ℤ × Bytes) × sys.Os
  pub close : sys.Os → ℤ → sys.Os
  pub is_valid : sys.Os → ℤ → Bool
  pub create : sys.Os → Bytes → ℕ → Option (ℕ × sys.Os)
  pub write : sys.Os → ℕ → Bytes → ℤ × sys.Os
  pub unlink : sys.Os → Bytes → sys.Os
  pub create_directories : sys.Os → Bytes → Option sys.Os

-- O_RDONLY
abbrev pub read_only : OpenFlags
read_only = record {
  o_rdwr = false;
  o_wronly = false;
  o_trunc = false;
  o_creat = false;
  o_directory = false;
  o_nofollow = false;
}

module _ (sys : System) (host : Host sys) where
  open sys use {Os}

  unfoldable pub open_file : Root → Cwd → FdTable → Os → Bytes → FdTable × Os × ℤ
  open_file root cwd fds os path =
      let (fds', os', answer) = tebako_open sys root cwd fds os (some path) read_only in
      elim answer [
        | answered out ↦ (fds', os', out.value)
        | passed target ↦ let (fd, os'') = host.open_read os' target in (fds', os'', fd)
      ]

  unfoldable pub stat_file : FdTable → Os → ℤ → ℤ × Stat
  stat_file fds os vfd = elim (tebako_fstat (host.is_valid os) fds vfd) [
    | answered out ↦ elim out.value.1 [
      | none ↦ (dwarfs_io_error, unread)
      | some st ↦ (out.value.0, st)
    ]
    | passed fd ↦ host.fstat os fd
  ]

  unfoldable pub read_file : Root → FdTable → Os → ℤ → ℕ → FdTable × Os × (ℤ × Bytes)
  read_file root fds os vfd nbyte =
      let (fds', answer) = tebako_read (host.is_valid os) root fds vfd nbyte in
      elim answer [
        | answered out ↦ (fds', os, out.value)
        | passed fd ↦ let (r, os') = host.read os fd nbyte in (fds', os', r)
      ]

  unfoldable pub close_file : FdTable → Os → ℤ → FdTable × Os
  close_file fds os vfd =
      let (fds', os', answer) = tebako_close (host.is_valid os) sys fds os vfd in
      elim answer [ answered out ↦ (fds', os') | passed fd ↦ (fds', host.close os' fd) ]
