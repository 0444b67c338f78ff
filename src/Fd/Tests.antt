-- ===== src/Fd/Tests.antt =====
-- Runs of the descriptor table over one file and a small system, and the theorems at these inputs.
use libdwarfs.Prelude.{
  ℕ, pos, negsuc, ==ℤ_iff, ◌≡◌, refl, Bool, true, false, none, some, [], ◌∷◌, ◌++◌, Bytes, ascii,
  arith, length, ◌==◌,
}
use libdwarfs.Prelude.Maps.{find, int_eq}
use libdwarfs.Errno.{returns, fails, dwarfs_io_error, einval}
use libdwarfs.Dwarfs.{Stat}
use libdwarfs.Root.{Root, Found}
use libdwarfs.System.Samples.{counter}
use libdwarfs.Fd.State.{Fd, FdTable}
use libdwarfs.Fd.Seek.{lseek, seek_end}
use libdwarfs.Fd.SeekLaws.{lseek_lem, seek_spec}
use libdwarfs.Fd.Read.{read, pread, readv}
use libdwarfs.Fd.Open.{OpenFlags, open_path}
use libdwarfs.Fd.Contents.{HasContent, read_read, chunk, moved}
use libdwarfs.Fd.Vectors.{readv_lem, readv_empty_buffer, joined}
use libdwarfs.Fd.Shared.{waiting, returned, run}
use libdwarfs.Prelude.{inr}
use libdwarfs.Fd.Shared.Races.{run_twice}
use libdwarfs.Fd.Descriptors.{IsBacked}
use libdwarfs.Fd.OpenLaws.{open_path_read_only, Refused}

abbrev text : Bytes
text = ascii "hello world"

abbrev file_stat : Stat
file_stat = record { st_ino = 5; st_mode = 0o100444; st_size = pos 11 }

abbrev hit : Bytes → Found
hit lnk = record { ret = pos 0; st = file_stat; lnk = lnk; errno = none }

-- Every path names the file.
abbrev one_file : Root
one_file = record {
  stat = λ path follow lnk. hit lnk;
  inode_access = λ ino amode. returns (pos 0);
  inode_relative_stat = λ ino path follow lnk. hit lnk;
  inode_read = λ ino n offset. elim offset [
    | pos off ↦ returns (pos (length (chunk text off n)), chunk text off n)
    | negsuc off ↦ fails (dwarfs_io_error, []) einval
  ];
  inode_readdir = λ ino start size. record {
    ret = dwarfs_io_error;
    entries = [];
    dir_size = none;
    errno = none;
  };
}

one_file-HasContent : HasContent one_file 5 text
one_file-HasContent = record { fits = omega arith; reads = λ n off h k. refl }

abbrev at_four : Fd
at_four = record { st = file_stat; position = 4; lock = 0; handle = some 3 }

abbrev one_open : FdTable
one_open = (pos 3, at_four) ∷ []

abbrev three_used : ℕ × (ℕ → Bool)
three_used = (4, λ j. j == 3)

one_open-IsBacked : IsBacked counter one_open three_used
unfolding find
one_open-IsBacked vfd fd h = record {
  number = 3;
  named = ground (arith, ==ℤ_iff (pos 3) vfd);
  held = ground arith;
  is_open = refl;
}

abbrev read_only : OpenFlags
read_only = record {
  o_rdwr = false;
  o_wronly = false;
  o_trunc = false;
  o_creat = false;
  o_directory = false;
  o_nofollow = true;
}

abbrev creating : OpenFlags
creating = record read_only { o_creat = true }

found_four : find (pos 3) one_open ≡ some at_four
unfolding find
found_four = refl

read_four : (read one_file one_open (pos 3) 4).1.value ≡ (pos 4, ascii "o wo")
unfolding read find
read_four = refl

lseek_lem_example :
    lseek one_open (pos 3) (negsuc 2) seek_end ≡ seek_spec one_open (pos 3) at_four (pos 8)
lseek_lem_example =
    lseek_lem one_open (pos 3) at_four 11 (negsuc 2) seek_end found_four refl (omega arith)
      (omega arith) (omega arith) (λ e. cc)

abbrev at_fourteen : Fd
at_fourteen = record at_four { position = 14 }

read_read_example :
    (pread one_file one_open (pos 3) 5 (pos 4) ≡ returns (pos 5, ascii "o wor"))
    × ((read one_file one_open (pos 3) 2).1.value.1
          ++ (read one_file (read one_file one_open (pos 3) 2).0 (pos 3) 3).1.value.1
        ≡ ascii "o wor")
    × (find (pos 3) (read one_file (read one_file one_open (pos 3) 2).0 (pos 3) 3).0
        ≡ some (moved at_four 5))
read_read_example =
    read_read one_file text one_open (pos 3) at_four 2 3 one_file-HasContent found_four
      (omega arith) (omega arith)

readv_lem_example :
    ((readv one_file one_open (pos 3) (4 ∷ 9 ∷ []) (pos 2)).1.value.0 ≡ pos 7)
    × (joined (readv one_file one_open (pos 3) (4 ∷ 9 ∷ []) (pos 2)).1.value.1 ≡ ascii "o world")
    × (find (pos 3) (readv one_file one_open (pos 3) (4 ∷ 9 ∷ []) (pos 2)).0
        ≡ some (moved at_four 7))
readv_lem_example =
    readv_lem one_file text one_open (pos 3) at_four (4 ∷ 9 ∷ []) one_file-HasContent found_four
      (omega arith) (omega arith)

readv_empty_buffer_example :
    let r = readv one_file one_open (pos 3) (3 ∷ 0 ∷ 9 ∷ []) (pos 3) in
    (r.1.value.0 ≡ pos 3)
    × (joined r.1.value.1 ≡ ascii "o w")
    × (find (pos 3) r.0 ≡ some (moved at_four 3))
readv_empty_buffer_example =
    readv_empty_buffer one_file text one_open (pos 3) at_four (3 ∷ []) (9 ∷ []) one_file-HasContent
      found_four (omega arith) (omega arith)

open_path_read_only_example :
    Refused counter one_open three_used
      (hit [])
      (open_path counter one_file one_open three_used (ascii "f") creating [])
open_path_read_only_example =
    open_path_read_only counter one_file one_open three_used (ascii "f") creating []
      (inr (inr (inr refl)))

run_twice_example : run one_file 5 (0 ∷ 1 ∷ 0 ∷ 0 ∷ 1 ∷ 1 ∷ []) (0, waiting 5 ∷ waiting 5 ∷ []) ≡ (
  10,
  returned 5 (returns (pos 5, ascii "hello")) ∷ returned 5 (returns (pos 5, ascii "hello")) ∷ [],
)
run_twice_example =
    run_twice one_file 5 text 0 5 5 one_file-HasContent (omega arith) (omega arith) (omega arith)
      (omega arith) (omega arith)
