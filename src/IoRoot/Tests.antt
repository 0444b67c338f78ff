-- ===== src/IoRoot/Tests.antt =====
-- The theorems on a process that has the sample image mounted.
use libdwarfs.Prelude.{
  ℕ, pos, ◌≤◌, ◌≡◌, refl, Bool, true, Option, none, some, [], ◌∷◌, Bytes, ascii, arith,
}
use libdwarfs.Prelude.Maps.{find}
use libdwarfs.Dwarfs.{Filesystem}
use libdwarfs.Root.{Found}
use libdwarfs.System.{System}
use libdwarfs.Fd.State.{Fd}
use libdwarfs.Dirent.Listed.{HasEntries}
use libdwarfs.Memfs.State.{Memfs}
use libdwarfs.Memfs.Samples.{one_file, holding, text, items}
use libdwarfs.Memfs.Stored.{HoldsFile, HoldsDirectory, entries_at}
use libdwarfs.MemfsTable as MemfsTable
use libdwarfs.MemfsTable.{MemfsTable, insert_auto}
use libdwarfs.MemfsTable.Inode.{get_fs_index}
use libdwarfs.IoRoot.{State, io_root, mount_memfs}
use libdwarfs.Memfs.Options.{Parsers, Options, Texts}
use libdwarfs.Prelude.{false, ltb, length}
use libdwarfs.IoRoot.Inodes.{io_root-HasEntries}
use libdwarfs.IoRoot.Mounts.{Mounted, placed, mount_memfs_lem, mount_memfs_full}

abbrev root : Memfs
root = holding one_file

abbrev mounted : MemfsTable
mounted = (0, root) ∷ []

abbrev no_stat : Bytes → Bool → Bytes → Found
no_stat path follow lnk = record {
  ret = pos 0;
  st = (one_file.getattr 0).1;
  lnk = lnk;
  errno = none;
}

one_file-HoldsFile : HoldsFile one_file 1 text
one_file-HoldsFile = record { fits = omega arith; reads = λ n off h. refl }

abbrev directory : Fd
directory = record { st = (one_file.getattr 0).1; position = 0; lock = 0; handle = some 3 }

one_file-HoldsDirectory : HoldsDirectory one_file 0 items
one_file-HoldsDirectory = record {
  view = 0;
  dir = 0;
  found = refl;
  opens = refl;
  size = refl;
  small = omega arith;
  reads = λ i. refl;
  attributes = λ v. refl;
}

io_root-HasEntries_example :
    HasEntries
      (io_root no_stat (λ i. no_stat) mounted)
      ((pos 3, directory) ∷ [])
      (pos 3)
      (entries_at one_file 0 items)
unfolding MemfsTable.get find get_fs_index
io_root-HasEntries_example =
    io_root-HasEntries no_stat (λ i. no_stat) mounted root ((pos 3, directory) ∷ []) (pos 3)
      directory items refl refl one_file-HoldsDirectory

abbrev idle : System
idle = record { Os = Unit {0}; dup = λ os. none; close = λ os fd. os; is_open = λ os fd. true }

abbrev running : MemfsTable → State (Unit {0})
running t = record { os = tt; fds = []; streams = []; mounts = []; file_systems = t; cwd = some [] }

abbrev parsed : Memfs → Option Bytes → Option Filesystem
parsed m offset = some one_file

mount_memfs_lem_example :
    Mounted idle one_file parsed
      (running mounted)
      1
      (record (placed idle one_file parsed 7 9 1) { fs = one_file })
      (0, ascii "usr")
      (mount_memfs idle one_file parsed (running mounted) 7 9 none 0 (ascii "usr"))
unfolding insert_auto MemfsTable.next_index
mount_memfs_lem_example =
    mount_memfs_lem idle one_file parsed (running mounted) 7 9 none (ascii "usr") 0 one_file
      (omega arith, tt) (omega arith) refl

abbrev full : MemfsTable
full =
    (0, root)
    ∷ (1, root)
    ∷ (2, root)
    ∷ (3, root)
    ∷ (4, root)
    ∷ (5, root)
    ∷ (6, root)
    ∷ (7, root)
    ∷ []

full_taken : (i : ℕ) → 1 ≤ i → i ≤ 7 → MemfsTable.check full i ≡ true
unfolding MemfsTable.check find
full_taken i h k = ground arith

mount_memfs_full_example :
    Mounted idle one_file parsed
      (running full)
      0
      (record root { fs = one_file })
      (0, ascii "usr")
      (mount_memfs idle one_file parsed (running full) 7 9 none 0 (ascii "usr"))
unfolding MemfsTable.get find
mount_memfs_full_example =
    mount_memfs_full idle one_file parsed (running full) 7 9 none (ascii "usr") 0 root one_file
      (
        omega arith,
        (
          omega arith,
          (
            omega arith,
            (omega arith, (omega arith, (omega arith, (omega arith, (omega arith, tt))))),
          ),
        ),
      )
      full_taken refl refl

-- Levels, modes and ratios are numbers, and every text stands for its length.
abbrev lengths : Parsers
lengths = record {
  Ratio = ℕ;
  Level = ℕ;
  Mode = ℕ;
  parse_size_with_unit = λ s. some (length s);
  parse_level = λ s. some (length s);
  info = 4;
  with_debug = λ l. ltb 4 l;
  to_ratio = λ s. some (length s);
  default_ratio = 1;
  in_range = λ r. ltb r 2;
  parse_mlock_mode = λ s. some (length s);
  no_lock = 0;
  to_size = λ s. some (length s);
  to_offset = λ s. none;
}

abbrev options : Options lengths
options = record {
  readonly = 0;
  cache_image = 0;
  enable_nlink = 0;
  cachesize = 0;
  workers = 2;
  lock_mode = 0;
  decompress_ratio = 1;
  debuglevel = 4;
  threshold = 4;
  log_context = false;
}

abbrev texts : Bytes → Texts lengths
texts ratio = record {
  debuglevel_text = none;
  cachesize_text = none;
  workers_text = none;
  mlock_text = none;
  decompress_ratio_text = some ratio;
}
