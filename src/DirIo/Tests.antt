-- ===== src/DirIo/Tests.antt =====
-- The theorem on a process with one stream and one pointer of the system.
use libdwarfs.Prelude.{pos, refl, none, [], ◌∷◌, true}
use libdwarfs.Prelude.Maps.{find}
use libdwarfs.System.{System}
use libdwarfs.Root.{Root}
use libdwarfs.Dirent.Cache.{new_ds}
use libdwarfs.Memfs.Samples.{holding, one_file}
use libdwarfs.Memfs.Find.{missing}
use libdwarfs.IoRoot.{io_root}
use libdwarfs.Kfd as Kfd
use libdwarfs.DirIo.{Dirs, tebako_closedir}
use libdwarfs.DirIo.Closed.{Refuses, closedir_lem}

abbrev idle : System
idle = record { Os = Unit {0}; dup = λ os. none; close = λ os fd. os; is_open = λ os fd. true }

abbrev root : Root
root =
    io_root (λ path follow lnk. missing lnk) (λ ino path follow lnk. missing lnk)
      ((0, holding one_file) ∷ [])

abbrev two : Dirs (Unit {0})
two = record { fds = []; os = tt; streams = (64, new_ds (pos 3)) ∷ []; kfd = (96, tt) ∷ [] }

closedir_lem_example : Refuses idle root (tebako_closedir idle root two 64).0 64
unfolding find Kfd.check
closedir_lem_example = closedir_lem idle root two 64 refl
