-- ===== src/Memfs/Samples.antt =====
-- Small images for the tests: a directory with one file, and one with a link to itself.
use libdwarfs.Prelude.{
  ℕ, pos, negsuc, none, some, List, [], ◌∷◌, Bytes, ascii, bytes_eq, length, get_elem?,
  if◌then◌else◌, ◌==◌,
}
use libdwarfs.Dwarfs.{Filesystem}
use libdwarfs.Fd.Contents.{chunk}
use libdwarfs.Memfs.State.{Memfs}

abbrev pub text : Bytes
text = ascii "hello world"

abbrev pub items : List (ℕ × Bytes)
items = (1, ascii "a") ∷ (1, ascii "b") ∷ []

-- View 0 is the root directory, and view 1 the file.
abbrev pub one_file : Filesystem
one_file = record {
  find = λ i. some i;
  find_at = λ i s. if bytes_eq s (ascii "a") then some 1 else none;
  inode_num = λ v. v;
  getattr = λ v. (
    pos 0,
    record { st_ino = v; st_mode = if v == 0 then 0o040555 else 0o100444; st_size = pos 11 },
  );
  readlink = λ v. (negsuc 21, []);
  read = λ i n offset. elim offset [
    | pos off ↦ (pos (length (chunk text off n)), chunk text off n)
    | negsuc off ↦ (negsuc 21, [])
  ];
  opendir = λ v. some v;
  dirsize = λ d. 2;
  readdir = λ d i. get_elem? items i;
}

-- Every entry is the link.
abbrev pub one_link : Filesystem
one_link = record one_file {
  find_at = λ i s. some 1;
  getattr = λ v. (
    pos 0,
    record { st_ino = v; st_mode = if v == 0 then 0o040555 else 0o120777; st_size = pos 1 },
  );
  readlink = λ v. (pos 0, ascii "l");
}

abbrev pub holding : Filesystem → Memfs
holding fs = record { image = 0; size = 0; dwarfs_root_inode = 0; fs = fs }
