-- ===== src/Process/Tests.antt =====
-- A process on the sample image that opens a file, reads, and unmounts.
use libdwarfs.Prelude.{
  ℕ, ℤ, pos, ◌≡◌, refl, Bool, true, false, Option, none, some, [], ◌∷◌, Bytes, ascii, ◌==◌,
  if◌then◌else◌, ◌⊎◌,
}
use libdwarfs.Prelude.Maps.{find, int_eq}
use libdwarfs.Errno.{Out, fails, enoent, dwarfs_io_error}
use libdwarfs.Dwarfs.{Stat, Filesystem}
use libdwarfs.System.Samples.{counter, counter-IsPosix}
use libdwarfs.Fd.State.{Fd}
use libdwarfs.Fd.Open.{OpenFlags}
use libdwarfs.Memfs.State.{Memfs}
use libdwarfs.Memfs.Find.{unread}
use libdwarfs.Memfs.Samples.{one_file, holding}
use libdwarfs.MemfsTable as MemfsTable
use libdwarfs.IoRoot.{State, new_memfs, mount_root_memfs, unmount_root_memfs}
use libdwarfs.Process.{opened}
use libdwarfs.Process.Unmount.{unmount_root_memfs_lem}
use libdwarfs.Process.Remount.{IsReset, mount_root_memfs_lem}

abbrev outside : Bytes → Out (ℤ × Stat)
outside p = fails (dwarfs_io_error, unread) enoent

abbrev no_chdir : Bytes → Out ℤ
no_chdir p = fails dwarfs_io_error enoent

abbrev unknown : ℤ → Bool
unknown vfd = false

abbrev parsed : Memfs → Option Bytes → Option Filesystem
parsed m offset = some one_file

abbrev read_only : OpenFlags
read_only = record {
  o_rdwr = false;
  o_wronly = false;
  o_trunc = false;
  o_creat = false;
  o_directory = false;
  o_nofollow = false;
}

abbrev start : State counter.Os
start = record {
  os = (3, λ j. false);
  fds = [];
  streams = [];
  mounts = [];
  file_systems = (0, holding one_file) ∷ [];
  cwd = none;
}

abbrev file : Option Bytes
file = some (ascii "/__tebako_memfs__/a")

abbrev after_open : State counter.Os
after_open = opened counter one_file parsed outside no_chdir unknown 2 start file read_only

abbrev entry : Fd
entry = record { st = (one_file.getattr 1).1; position = 0; lock = 0; handle = some 3 }

abbrev in_use : State counter.Os
in_use = record start { os = (4, λ j. if 3 == j then true else false); fds = (pos 3, entry) ∷ [] }

unmount_root_memfs_lem_example :
    let r = unmount_root_memfs counter one_file parsed in_use in
    (r.fds ≡ [])
    × (r.streams ≡ [])
    × (r.mounts ≡ [])
    × (r.file_systems ≡ [])
    × (r.cwd ≡ none)
    × ((vfd : ℤ) (fd : Fd) (n : ℕ)
        → find vfd in_use.fds ≡ some fd
        → fd.handle ≡ some n
        → counter.is_open r.os n ≡ false)
unmount_root_memfs_lem_example =
    unmount_root_memfs_lem counter counter-IsPosix one_file parsed in_use

mount_root_memfs_lem_example :
    let m = new_memfs one_file 7 9 in
    let r = mount_root_memfs counter one_file parsed in_use 7 9 none in
    IsReset counter one_file parsed in_use r.0
    × (((r.1 ≡ pos 0)
          × ((fs : Filesystem) × (parsed m none ≡ some fs)
              × (MemfsTable.get r.0.file_systems 0 ≡ some (record m { fs = fs })))
          × (r.0.cwd ≡ some []))
        ⊎ ((r.1 ≡ dwarfs_io_error)
            × (parsed m none ≡ none)
            × (MemfsTable.get r.0.file_systems 0 ≡ none)))
unfolding MemfsTable.get find
mount_root_memfs_lem_example =
    mount_root_memfs_lem counter one_file parsed in_use (holding one_file) 7 9 none refl
