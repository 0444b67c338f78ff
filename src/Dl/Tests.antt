-- ===== src/Dl/Tests.antt =====
-- The theorems on loads from the sample image, with a small system that keeps files.
use libdwarfs.Prelude.{
  ℤ, pos, negsuc, ◌≡◌, ◌≢◌, refl, true, false, none, some, [], ◌∷◌, Bytes, ascii, arith, bytes_eq,
  starts_with, ◌==◌, if◌then◌else◌,
}
use libdwarfs.Prelude.Maps.{find}
use libdwarfs.Errno.{fails, enoent, enomem, dwarfs_io_error}
use libdwarfs.Root.{Root}
use libdwarfs.Paths.{
  parse, split, names, generic_string, lexically_normal, normal_loop, normal_step, climb, closing,
}
use libdwarfs.Paths.Parts.{join}
use libdwarfs.Cwd.{to_tebako_path, tebako_path_assign, is_tebako_path}
use libdwarfs.Fd.State.{Fd}
use libdwarfs.Fd.Contents.{HasContent}
use libdwarfs.Memfs.Find.{
  unread, find_inode_root, find_inode_abs, find_inode, enter, process_inode, find_loop, descend,
  finish,
}
use libdwarfs.MountTable as MountTable
use libdwarfs.Memfs.Samples.{one_file, holding, text}
use libdwarfs.MemfsTable as MemfsTable
use libdwarfs.MemfsTable.{MemfsTable}
use libdwarfs.MemfsTable.Inode.{get_fs_index}
use libdwarfs.IoRoot.Inodes.{io_root-HasContent}
use libdwarfs.Search.{search_root, search_call, dwarfs_stat}
use libdwarfs.Dl.Samples.{Machine, machine, machine-IsPosix, host, disk}
use libdwarfs.Dl.Foreign.{Host}
use libdwarfs.Dl.Copy.{copy_short_write}
use libdwarfs.Dl.Files.{IsExtracted, map2file_copies}
use libdwarfs.Dl.Errors.{Reports, map2file_error}
use libdwarfs.Dl.{Loader, Copied, no_error, map_name, copy, map2file}

abbrev mounted : MemfsTable
mounted = (0, holding one_file) ∷ []

abbrev root : Root
root = search_root [] mounted none (λ path. fails (dwarfs_io_error, unread) enoent) 2

root-HasContent : HasContent root 1 text
unfolding MemfsTable.get find get_fs_index
root-HasContent =
    io_root-HasContent root.stat root.inode_relative_stat mounted (holding one_file) 1 text refl
      (record { fits = omega arith; reads = λ n off h. refl })

abbrev file : Bytes
file = ascii "/__tebako_memfs__/a"

abbrev tmp : Bytes
tmp = ascii "/tmp/7"

-- Nothing is open, and no file holds anything.
abbrev idle : Machine
idle = (3, λ j. false, λ j. [], λ f. [])

abbrev fresh : Loader Machine
fresh = record { os = idle; fds = []; table = []; stash = no_error }

loaded :
    (after : Loader Machine) × (map2file machine host root none 2 tmp fresh file
      ≡ some (map_name tmp file, after))
    × IsExtracted machine machine-IsPosix host disk root none fresh file
        (map_name tmp file)
        text
        3
        4
        after
unfolding find bytes_eq to_tebako_path tebako_path_assign is_tebako_path starts_with generic_string
    lexically_normal normal_loop normal_step climb closing parse split names MemfsTable.get
    dwarfs_stat search_call find_inode_root find_inode_abs find_inode enter process_inode find_loop
    MountTable.get descend finish
loaded =
    map2file_copies machine machine-IsPosix host disk root none 1 3 4 fresh idle
      (4, λ j. if 3 == j then true else false, λ j. [], λ f. [])
      (
        5,
        λ j. if 4 == j then true else if 3 == j then true else false,
        λ j. if 4 == j then map_name tmp file else [],
        λ f. [],
      )
      tmp file text refl refl refl root-HasContent refl refl (λ vfd fd h. ground arith) refl refl
      refl (omega arith)

named : map_name tmp file ≢ []
unfolding map_name join
named e = cc

-- A system that makes no directory.
abbrev full_up : Host machine
full_up = record host { create_directories = λ os dir. none }

abbrev failed : Loader Machine
failed = record fresh { stash = record { err = enomem; fname = file } }

abbrev strerror : ℤ → Bytes
strerror e = ascii "Cannot allocate memory"

map2file_error_example : (failed.table ≡ fresh.table) × Reports strerror [] file failed
unfolding map2file find
map2file_error_example =
    map2file_error machine full_up root none 2 tmp fresh failed file strerror [] refl named refl

-- A system whose disk is full.
abbrev full : Host machine
full = record host { write = λ os n bytes. (negsuc 0, os) }

abbrev opened : Fd
opened = record { st = (one_file.getattr 1).1; position = 0; lock = 0; handle = some 3 }

copy_short_write_example :
    (c : Copied Machine) × (copy machine full root none 2 ((pos 3, opened) ∷ []) idle (pos 3) 4 11
      ≡ some c)
    × (c.left ≡ 0)
    × (c.os ≡ idle)
unfolding find
copy_short_write_example =
    copy_short_write machine full root none 0 text ((pos 3, opened) ∷ []) idle (pos 3) 4 opened
      root-HasContent refl refl (omega arith) (omega arith)
