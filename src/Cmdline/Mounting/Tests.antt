-- ===== src/Cmdline/Mounting/Tests.antt =====
-- Mount rules on the sample image.
use libdwarfs.Prelude.{ℤ, false, Option, none, some, List, [], ◌∷◌, Bytes, ascii}
use libdwarfs.Errno.{Out, fails, enoent, dwarfs_io_error}
use libdwarfs.Dwarfs.{Stat, Filesystem}
use libdwarfs.System.Samples.{counter}
use libdwarfs.Memfs.State.{Memfs}
use libdwarfs.Memfs.Find.{unread}
use libdwarfs.Memfs.Samples.{one_file, holding}
use libdwarfs.MemfsTable as MemfsTable
use libdwarfs.MountTable as MountTable
use libdwarfs.MountTable.{path}
use libdwarfs.IoRoot.{State}
use libdwarfs.Cmdline.Mounting.{ImageFile, absent}

abbrev outside : Bytes → Out (ℤ × Stat)
outside p = fails (dwarfs_io_error, unread) enoent

abbrev no_image : Bytes → ImageFile
no_image p = absent

abbrev parsed : Memfs → Option Bytes → Option Filesystem
parsed m offset = some one_file

abbrev start : State counter.Os
start = record {
  os = (3, λ j. false);
  fds = [];
  streams = [];
  mounts = [];
  file_systems = (0, holding one_file) ∷ [];
  cwd = none;
}

abbrev rules : List Bytes
rules = ascii "usr:/opt" ∷ []

abbrev end : State counter.Os
end = record start { mounts = ((0, ascii "usr"), path (ascii "/opt")) ∷ [] }
