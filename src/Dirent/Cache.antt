-- ===== src/Dirent/Cache.antt =====
-- `tebako_ds`: one open directory, the refill of its cache, and the body of readdir.
use libdwarfs.Prelude.{
  ℕ, ℤ, pos, negsuc, ◌+◌, ◌-◌, ◌%◌, ◌^◌, ◌+ℤ◌, int_of, Bool, false, Option, none, some, List, [],
  ◌++◌, length, drop, get_elem?, ltb, leb, ltb_ℤ, ◌==ℤ◌, ◌||◌, if◌then◌else◌,
}
use libdwarfs.Errno.{Errno, dwarfs_io_continue, dwarfs_io_error, ebadf}
use libdwarfs.Root.{Root, Dirent}
use libdwarfs.Fd.State.{FdTable}
use libdwarfs.Fd.Seek.{to_u64}
use libdwarfs.Fd.Read as FdRead

abbrev pub dir_cache_size : ℕ
dir_cache_size = 50

-- `cache` lists the slots that were written at least once.
pub record Ds : Type 0 where
  pub cache : List Dirent
  pub dir_size : ℕ
  pub dir_position : ℤ
  pub cache_start : ℤ
  pub cache_size : ℕ
  pub vfd : ℤ

abbrev pub new_ds : ℤ → Ds
new_ds fd = record {
  cache = [];
  dir_size = 0;
  dir_position = negsuc 0;
  cache_start = pos 0;
  cache_size = 0;
  vfd = fd;
}

-- The entries go to the front of the array, and the slots behind them stay.
abbrev pub overwrite : List Dirent → List Dirent → List Dirent
overwrite entries cache = entries ++ drop (length entries) cache

abbrev pub size_after : Option ℕ → ℕ → ℕ
size_after none old = old
size_after (some new) old = new

-- The code, errno and the directory. The parameter `new_cache_start` is an `int`.
unfoldable pub load_cache : Root → FdTable → Ds → ℤ → Bool → ℤ × Option Errno × Ds
load_cache root fds ds start set_pos =
    let l = FdRead.readdir root fds ds.vfd start dir_cache_size in
    let filled = overwrite l.entries ds.cache in
    let size = size_after l.dir_size ds.dir_size in
    if l.ret ==ℤ dwarfs_io_continue
    then (
      l.ret,
      l.errno,
      record ds {
        cache = filled;
        dir_size = size;
        dir_position = if set_pos then start else ds.dir_position;
        cache_start = start;
        cache_size = length l.entries;
      },
    )
    else (
      l.ret,
      l.errno,
      record ds { cache = filled; dir_size = size; dir_position = negsuc 0; cache_size = 0 },
    )

pub record Read : Type 0 where
  pub ds : Ds
  pub ret : ℤ
  pub entry : Option Dirent
  pub errno : Option Errno

-- entry = &cache[dir_position++ - cache_start]
unfoldable pub next_entry : Ds → Option Errno → Read
next_entry ds e = record {
  ds = record ds { dir_position = ds.dir_position +ℤ pos 1 };
  ret = dwarfs_io_continue;
  entry = get_elem? ds.cache (to_u64 ds.dir_position - to_u64 ds.cache_start);
  errno = e;
}

-- dir_position > cache_start + cache_size - 1 || dir_position < cache_start: the first comparison is
-- one of `size_t`, modulo 2^64.
unfoldable pub is_outside : Ds → Bool
is_outside ds =
    ltb ((to_u64 ds.cache_start + ds.cache_size + (2 ^ 64 - 1)) % 2 ^ 64) (to_u64 ds.dir_position)
    || ltb_ℤ ds.dir_position ds.cache_start

unfoldable pub readdir_ds : Root → FdTable → Ds → Read
readdir_ds root fds ds =
    if ltb_ℤ ds.dir_position (pos 0)
    then record { ds = ds; ret = dwarfs_io_error; entry = none; errno = some ebadf }
    else if leb ds.dir_size (to_u64 ds.dir_position)
    then record { ds = ds; ret = dwarfs_io_continue; entry = none; errno = none }
    else if is_outside ds
    then (let (ret, e, ds') = load_cache root fds ds (int_of ds.dir_position) false in
        if ret ==ℤ dwarfs_io_continue
        then next_entry ds' e
        else record { ds = ds'; ret = ret; entry = none; errno = some ret })
    else next_entry ds none
