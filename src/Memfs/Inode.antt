-- ===== src/Memfs/Inode.antt =====
-- The operations of `memfs` on an inode (src/tebako-memfs.cpp): inode_access, inode_read,
-- inode_readdir, inode_readlink, and what they share. The calls into `fs` are those of `Filesystem`.
use libdwarfs.Prelude.{
  ℕ, ℤ, pos, zero, suc, ◌+◌, ◌/◌, ◌%◌, ◌^◌, neg, ltb_ℤ, ◌==ℤ◌, int_of, Bool, true, false, not, ◌&&◌,
  ◌||◌, Option, none, some, List, [], ◌∷◌, Bytes, take, ltb, ◌==◌, if◌then◌else◌,
}
use libdwarfs.Errno.{
  Errno, Out, returns, fails, later, dwarfs_io_continue, dwarfs_io_error, enoent, eacces, enotdir,
}
use libdwarfs.Dwarfs.{Stat, Filesystem}
use libdwarfs.Root.{Dirent, Listing}
use libdwarfs.Fd.Seek.{to_u64}
use libdwarfs.Memfs.State.{Memfs}

-- x & (1 << bit), as a test.
abbrev pub has_bit : ℕ → ℕ → Bool
has_bit x bit = x / 2 ^ bit % 2 == 1

-- S_IRUSR is bit 8 and S_IXUSR bit 6 of the mode; R_OK, W_OK and X_OK are the bits 2, 1 and 0.
unfoldable pub i_access : ℕ → Stat → Out ℤ
i_access amode st =
    if (not (has_bit st.st_mode 8) && has_bit amode 2)
      || has_bit amode 1
      || (not (has_bit st.st_mode 6) && has_bit amode 0)
    then fails dwarfs_io_error eacces
    else returns dwarfs_io_continue

-- The code, errno and `*st`.
unfoldable pub dwarfs_file_stat : Filesystem → ℕ → ℤ × Option Errno × Stat
dwarfs_file_stat fs view =
    let (ret, st) = fs.getattr view in
    if ltb_ℤ ret (pos 0) then (dwarfs_io_error, some (neg ret), st) else (ret, none, st)

unfoldable pub inode_access : Memfs → ℕ → ℕ → Out ℤ
inode_access m inode amode = elim (m.fs.find inode) [
  | none ↦ fails dwarfs_io_error enoent
  | some view ↦
      let (ret, e, st) = dwarfs_file_stat m.fs view in
      let a = i_access amode st in
      if ret ==ℤ dwarfs_io_continue
      then record { value = a.value; errno = later e a.errno }
      else record { value = ret; errno = e }
]

-- The result of the library is stored in an `int`.
unfoldable pub inode_read : Memfs → ℕ → ℕ → ℤ → Out (ℤ × Bytes)
inode_read m inode size offset =
    let (n, bytes) = m.fs.read inode size offset in
    let err = int_of n in
    if ltb_ℤ err (pos 0) then fails (dwarfs_io_error, bytes) (neg err) else returns (err, bytes)

unfoldable pub inode_readlink : Memfs → ℕ → Out (ℤ × Bytes)
inode_readlink m inode = elim (m.fs.find inode) [
  | none ↦ fails (dwarfs_io_error, []) enoent
  | some view ↦
      let (err, lnk) = m.fs.readlink view in
      if ltb_ℤ err (pos 0) then fails (dwarfs_io_error, lnk) (neg err) else returns (err, lnk)
]

-- TEBAKO_PATH_LENGTH is PATH_MAX, here that of Linux.
abbrev pub path_length : ℕ
path_length = 4096

-- cache[cache_size]: IFTODT takes the four high bits of the mode, and strncpy cuts a long name.
unfoldable pub fill_entry : Stat → ℕ → Bytes → Dirent
fill_entry st off name = record {
  d_ino = st.st_ino;
  d_off = off;
  d_type = st.st_mode / 4096 % 16;
  d_name = take path_length name;
}

-- The loop: the code, pOK, errno and the entries. `at` is cache_start + cache_size, a `size_t`, and
-- `room` is buffer_size - cache_size.
pub record Filled : Type 0 where
  pub ret : ℤ
  pub ok : Bool
  pub errno : Option Errno
  pub entries : List Dirent

unfoldable pub fill_cache : ℕ → Filesystem → ℕ → ℕ → ℕ → ℤ → Option Errno → Filled
fill_cache zero fs dir dir_size at ret e = record { ret = ret; ok = true; errno = e; entries = [] }
fill_cache (suc room) fs dir dir_size at ret e =
    if ltb at dir_size
    then elim (fs.readdir dir at) [
      | none ↦ record { ret = ret; ok = false; errno = e; entries = [] }
      | some (view, name) ↦
          let (ret', e', st) = dwarfs_file_stat fs view in
          let rest = fill_cache room fs dir dir_size ((at + 1) % 2 ^ 64) ret' (later e e') in
          record rest { entries = fill_entry st at name ∷ rest.entries }
    ]
    else record { ret = ret; ok = true; errno = e; entries = [] }

-- Where the call fails, cache_size is 0, and the slots that it wrote are not listed.
abbrev pub finish_listing : ℤ → Option ℕ → Option Errno → List Dirent → Listing
finish_listing ret size e entries =
    if ltb_ℤ ret (pos 0)
    then record { ret = ret; entries = []; dir_size = size; errno = some enotdir }
    else record { ret = ret; entries = entries; dir_size = size; errno = e }

unfoldable pub inode_readdir : Memfs → ℕ → ℤ → ℕ → Listing
inode_readdir m inode cache_start buffer_size = elim (m.fs.find inode) [
  | none ↦ finish_listing dwarfs_io_error none none []
  | some view ↦ elim (m.fs.opendir view) [
    | none ↦ finish_listing dwarfs_io_error none none []
    | some dir ↦
        let size = m.fs.dirsize dir in
        let f = fill_cache buffer_size m.fs dir size (to_u64 cache_start) dwarfs_io_error none in
        finish_listing (if f.ok then pos 0 else f.ret) (some size) f.errno f.entries
  ]
]
