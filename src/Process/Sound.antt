-- ===== src/Process/Sound.antt =====
-- What holds of the tables whatever calls were made.
use libdwarfs.Prelude.Maps.{nat_eq, int_eq}
use libdwarfs.Root.{Root}
use libdwarfs.System.{System}
use libdwarfs.Cwd.{Cwd}
use libdwarfs.Fd.Descriptors.{IsBacked}
use libdwarfs.Dirent as Dirent
use libdwarfs.Memfs.State.{Memfs}
use libdwarfs.MemfsTable as MemfsTable
use libdwarfs.MemfsTable.{MemfsTable}
use libdwarfs.IoRoot.{State}
use libdwarfs.Process.Tables.{IsProper}

-- Every entry of the descriptor table is named by a system descriptor that it holds open, and the table of
-- file systems has its keys in order, from 0 to 7 at most.
pub record IsSound (sys : System) (s : State sys.Os) : Type 0 where
  pub backed : IsBacked sys s.fds s.os
  pub proper : IsProper s.file_systems
