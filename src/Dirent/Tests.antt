-- ===== src/Dirent/Tests.antt =====
-- Runs over a directory of three entries, and the theorems at these inputs.
use libdwarfs.Prelude.{
  ℕ, pos, negsuc, ◌≤◌, ◌≡◌, refl, none, some, List, [], ◌∷◌, ascii, arith, length, take, drop, ◌==◌,
  not,
}
use libdwarfs.Prelude.Maps.{find}
use libdwarfs.Errno.{returns, dwarfs_io_error, dwarfs_io_continue}
use libdwarfs.Dwarfs.{Stat}
use libdwarfs.Root.{Root, Dirent}
use libdwarfs.Fd.State.{FdTable}
use libdwarfs.Fd.Read as FdRead
use libdwarfs.Dirent.{DsTable, opendir, readdir, seekdir, telldir}
use libdwarfs.Dirent.Seek.{reads, seekdir-telldir}
use libdwarfs.Dirent.Cache
use libdwarfs.Dirent.Listed.{HasEntries}
use libdwarfs.Dirent.Stream.{Streams, readdir_lem, opendir_lem, scan_loop, scan_loop_lem}

abbrev dir_stat : Stat
dir_stat = record { st_ino = 2; st_mode = 0o040555; st_size = pos 3 }

abbrev entry : ℕ → Dirent
entry n = record { d_ino = n; d_off = n; d_type = 8; d_name = ascii "f" }

abbrev entries : List Dirent
entries = entry 10 ∷ entry 11 ∷ entry 12 ∷ []

abbrev one_dir : Root
one_dir = record {
  stat = λ path follow lnk. record { ret = pos 0; st = dir_stat; lnk = lnk; errno = none };
  inode_access = λ ino amode. returns (pos 0);
  inode_relative_stat =
      λ ino path follow lnk. record { ret = pos 0; st = dir_stat; lnk = lnk; errno = none };
  inode_read = λ ino n offset. returns (dwarfs_io_error, []);
  inode_readdir = λ ino start size. elim start [
    | pos n ↦ record {
      ret = pos 0;
      entries = take size (drop n entries);
      dir_size = some (length entries);
      errno = none;
    }
    | negsuc n ↦ record { ret = dwarfs_io_error; entries = []; dir_size = none; errno = none }
  ];
}

abbrev one_open : FdTable
one_open = (pos 3, record { st = dir_stat; position = 0; lock = 0; handle = some 3 }) ∷ []

one_open-HasEntries : HasEntries one_dir one_open (pos 3) entries
unfolding FdRead.readdir find
one_open-HasEntries = record { small = omega arith; lists = λ start h. refl }

abbrev opened : DsTable
opened = (opendir one_dir one_open [] 4096 (pos 3)).0

at_start : Streams one_dir one_open entries 0 opened 4096
at_start = (opendir_lem one_dir one_open entries [] 4096 (pos 3) one_open-HasEntries).1

readdir_lem_example :
    let r = readdir one_dir one_open opened 4096 in
    (r.1.value ≡ (dwarfs_io_continue, some (entry 10)))
    × Streams one_dir one_open entries 1 r.0 4096
readdir_lem_example = readdir_lem one_dir one_open entries opened 4096 0 at_start (omega arith)

scan_loop_lem_example :
    (scan_loop 4 one_dir one_open opened 4096 (λ d. not (d.d_ino == 11))
      ≡ some (entry 10 ∷ entry 12 ∷ []))
    × (2 ≤ 3)
unfolding opendir Cache.load_cache FdRead.readdir find
scan_loop_lem_example =
    scan_loop_lem one_dir one_open entries [] 4096 (pos 3) (λ d. not (d.d_ino == 11)) 4
      one_open-HasEntries (omega arith)

seekdir-telldir_example :
    let back = seekdir (reads one_dir one_open 2 opened 4096) 4096 (telldir opened 4096) in
    (back.1 ≡ dwarfs_io_continue)
    × (telldir back.0 4096 ≡ telldir opened 4096)
    × ((readdir one_dir one_open back.0 4096).1.value
        ≡ (readdir one_dir one_open opened 4096).1.value)
seekdir-telldir_example =
    seekdir-telldir one_dir one_open entries 4096 2 0 opened at_start (omega arith)
