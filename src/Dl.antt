-- ===== src/Dl.antt =====
-- Loading shared objects out of memfs: src/dl-ctl.cpp. `sync_tebako_dltable` copies a file of memfs into
-- a directory of its own, once for each path, and keeps where it put it.
pub mod Foreign
pub mod Handles
pub mod Chunk
pub mod Copy
pub mod Files
pub mod Errors
pub mod Samples
mod Tests
use libdwarfs.Prelude.{
  ℕ, ℤ, pos, negsuc, zero, suc, ◌+◌, ◌-◌, ◌*◌, ◌+ℤ◌, neg, ltb_ℤ, ◌==ℤ◌, Bool, true, false, Option,
  none, some, List, [], ◌∷◌, ◌++◌, Bytes, ascii, take, drop, length, ◌==◌, ltb, if◌then◌else◌,
}
use libdwarfs.Prelude.Maps.{Map, find, assign, bytes_key}
use libdwarfs.Errno.{Errno, enoent, eio, enomem}
use libdwarfs.Dwarfs.{Stat}
use libdwarfs.Root.{Root}
use libdwarfs.System.{System}
use libdwarfs.Cwd.{Cwd, to_tebako_path}
use libdwarfs.Paths.Parts.{parent_path, join}
use libdwarfs.Memfs.Inode.{path_length}
use libdwarfs.Fd.State.{FdTable}
use libdwarfs.Fd.Seek.{to_u64}
use libdwarfs.Fd.Open.{OpenFlags}
use libdwarfs.Dl.Foreign.{Host, read_only, open_file, stat_file, read_file, close_file}

-- tebako_dlerror_data. `err` is 0 where nothing is kept.
pub record Stash : Type 0 where
  pub err : ℤ
  pub fname : Bytes

abbrev pub no_error : Stash
no_error = record { err = pos 0; fname = [] }

-- The descriptors of the process, the table and tebako_dlerror_stash.
pub record Loader (Os : Type 0) : Type 0 where
  pub os : Os
  pub fds : FdTable
  pub table : Map Bytes Bytes
  pub stash : Stash

abbrev pub bsize : ℕ
bsize = 16 * 1024

-- What the loop leaves, and `f_size` after it.
pub record Copied (Os : Type 0) : Type 0 where
  pub fds : FdTable
  pub os : Os
  pub left : ℕ

-- The byte behind the mount point is not looked at where the path ends in front of it.
unfoldable pub map_name : Bytes → Bytes → Bytes
map_name dl_tmpdir path = join dl_tmpdir (if length path == 17 then drop 17 path else drop 18 path)

module _ (sys : System) (host : Host sys) (root : Root) (cwd : Cwd) where
  open sys use {Os, close}

  -- One round, with `next` for the rounds behind it.
  unfoldable pub copy_round :
      (FdTable → Os → ℕ → Option (Copied Os)) → FdTable → Os → ℤ → ℕ → ℕ → Option (Copied Os)
  copy_round next fds os fh_in fh_out f_size =
      let (fds', os', (r_size, buf)) = read_file sys host root fds os fh_in bsize in
      let (written, os'') = host.write os' fh_out buf in
      let left = to_u64 (pos f_size +ℤ neg r_size) in
      if ltb_ℤ (pos 0) r_size
      then (if r_size ==ℤ written
          then next fds' os'' left
          else some (record { fds = fds'; os = os''; left = left }))
      else some (record { fds = fds'; os = os'; left = f_size })

  -- The loop; `none` is fuel run out.
  unfoldable pub copy : ℕ → FdTable → Os → ℤ → ℕ → ℕ → Option (Copied Os)
  copy zero fds os fh_in fh_out f_size = none
  copy (suc fuel) fds os fh_in fh_out f_size =
      if f_size == 0
      then some (record { fds = fds; os = os; left = 0 })
      else copy_round (λ fds' os' left. copy fuel fds' os' fh_in fh_out left) fds os fh_in fh_out
          f_size

  -- Behind the loop.
  unfoldable pub keep_copy : Loader Os → Copied Os → ℕ → Bytes → Bytes → Bytes × Loader Os
  keep_copy s c fh_out path mapped =
      if c.left == 0
      then (
        mapped,
        record s { fds = c.fds; os = close c.os fh_out; table = assign path mapped s.table },
      )
      else (
        [],
        record s {
          fds = c.fds;
          os = close (host.unlink c.os mapped) fh_out;
          stash = record { err = eio; fname = path };
        },
      )

  -- The copy of the open file.
  unfoldable pub copy_open : ℕ → Loader Os → ℤ → Bytes → Bytes → Option (Bytes × Loader Os)
  copy_open fuel s fh_in path mapped =
      let (ret, st) = stat_file sys host s.fds s.os fh_in in
      let failed = record s { stash = record { err = eio; fname = path } } in
      if ret ==ℤ negsuc 0 then some ([], failed) else elim (host.create s.os mapped st.st_mode) [
        | none ↦ some ([], failed)
        | some (fh_out, os) ↦ elim (copy fuel s.fds os fh_in fh_out (to_u64 st.st_size)) [
          | none ↦ none
          | some c ↦ some (keep_copy s c fh_out path mapped)
        ]
      ]

  unfoldable pub close_in : Bytes × Loader Os → ℤ → Bytes × Loader Os
  close_in (ret, s) fh_in =
      let (fds, os) = close_file sys host s.fds s.os fh_in in (ret, record s { fds = fds; os = os })

  unfoldable pub extract : ℕ → Loader Os → Bytes → Bytes → Option (Bytes × Loader Os)
  extract fuel s path mapped =
      let (fds, os, fh_in) = open_file sys host root cwd s.fds s.os path in
      let opened = record s { fds = fds; os = os } in
      if ltb_ℤ fh_in (pos 0)
      then some ([], record opened { stash = record { err = enoent; fname = path } })
      else elim (copy_open fuel opened fh_in path mapped) [
        | none ↦ none
        | some r ↦ some (close_in r fh_in)
      ]

  -- std::filesystem::create_directories throws where the directory cannot be made.
  unfoldable pub map2file : ℕ → Bytes → Loader Os → Bytes → Option (Bytes × Loader Os)
  map2file fuel dl_tmpdir s path =
      let mapped = map_name dl_tmpdir path in
      elim (find path s.table) [
        | some known ↦ some (known, s)
        | none ↦ elim (host.create_directories s.os (parent_path mapped)) [
          | none ↦ some ([], record s { stash = record { err = enomem; fname = path } })
          | some os ↦ extract fuel (record s { os = os }) path mapped
        ]
      ]

  -- tebako_dlopen and tebako_dlmap2file; `none` for the path is a null pointer. `dlopen` is the system's
  -- call with its flags, and a null handle is `none`. The state does not change in it.
  module _ (fuel : ℕ) (dl_tmpdir : Bytes) where
    unfoldable pub tebako_dlopen :
        (Os → Option Bytes → Option ℕ) → Loader Os → Option Bytes → Option (Option ℕ × Loader Os)
    tebako_dlopen dlopen s none = some (dlopen s.os none, s)
    tebako_dlopen dlopen s (some path) = elim (to_tebako_path cwd path) [
      | none ↦ some (dlopen s.os (some path), s)
      | some p ↦ elim (map2file fuel dl_tmpdir s p) [
        | none ↦ none
        | some ([], s') ↦ some (none, s')
        | some (c ∷ mapped, s') ↦ some (dlopen s'.os (some (c ∷ mapped)), s')
      ]
    ]

    unfoldable pub tebako_dlmap2file : Loader Os → Option Bytes → Option (Option Bytes × Loader Os)
    tebako_dlmap2file s none = some (none, s)
    tebako_dlmap2file s (some path) = elim (to_tebako_path cwd path) [
      | none ↦ some (none, s)
      | some p ↦ elim (map2file fuel dl_tmpdir s p) [
        | none ↦ none
        | some ([], s') ↦ some (none, s')
        | some (c ∷ mapped, s') ↦ some (some (c ∷ mapped), s')
      ]
    ]

  -- The destructor. `remove_all` is the system's, whose errors are not looked at.
  abbrev pub unlink_each : Map Bytes Bytes → Os → Os
  unlink_each [] os = os
  unlink_each ((path, mapped) ∷ table) os = unlink_each table (host.unlink os mapped)

  unfoldable pub destroy_table : (Os → Bytes → Os) → Bytes → Loader Os → Loader Os
  destroy_table remove_all dl_tmpdir s =
      let os = unlink_each s.table s.os in
      record s { os = if length dl_tmpdir == 0 then os else remove_all os dl_tmpdir; table = [] }

-- `strerror` is the C library's. `message` is tebako_dlerror_msg, and the result the message of the
-- table or of the system, whose own call is `dlerror`.
unfoldable pub tebako_dlerror : {Os : Type 0} → (ℤ → Bytes) → Loader Os → Bytes → Bytes × Loader Os
tebako_dlerror strerror s dlerror =
    let text =
      s.stash.fname ++ ascii ": cannot open shared object file: " ++ strerror s.stash.err in
    (
      if s.stash.err ==ℤ pos 0 then dlerror else take (path_length + 1024 - 1) text,
      record s { stash = no_error },
    )

-- create_temporary_directory: `names` are the numbers that are drawn, and `create_directory` is false
-- where the name is taken. `none` is the exception after MAX_TRIES tries; `left` are those left.
unfoldable pub try_names :
    {Os : Type 0} → (Os → Bytes → Bool × Os) → Bytes → (ℕ → Bytes) → ℕ → Os → Option Bytes × Os
try_names create_directory tmp names zero os = (none, os)
try_names create_directory tmp names (suc left) os =
    let dir = join tmp (names (1024 - suc left)) in
    let (made, os') = create_directory os dir in
    let rest = try_names create_directory tmp names left os' in
    if made then (some dir, os') else rest

abbrev pub create_temporary_directory :
    {Os : Type 0} → (Os → Bytes → Bool × Os) → Bytes → (ℕ → Bytes) → Os → Option Bytes × Os
create_temporary_directory create_directory tmp names os =
    try_names create_directory tmp names 1024 os
