-- ===== src/FileIo/Loadable.antt =====
-- tebako_file_load_ok and within_tebako_memfs of src/file-ctl.cpp: whether a file of memfs can be loaded.
use libdwarfs.Prelude.{
  ℕ, ℤ, pos, negsuc, ◌==ℤ◌, ==ℤ_iff, ◌≡◌, refl, true, false, some, Bytes, arith, if◌then◌else◌,
}
use libdwarfs.Prelude.Maps.{find, assign, erase, int_eq, find-assign, find-assign_self, find-erase}
use libdwarfs.Root.{Root, Found}
use libdwarfs.System.{System, IsPosix}
use libdwarfs.Cwd.{Cwd, is_tebako_path, to_tebako_path}
use libdwarfs.Fd.State.{FdTable}
use libdwarfs.Fd.Descriptors.{IsBacked, admits, new_entry, fresh_free}
use libdwarfs.Dl.Foreign.{Host, read_only, open_file, stat_file, close_file}
use libdwarfs.Dl.Handles.{open_file_lem, stat_file_lem, close_file_lem}

unfoldable pub within_tebako_memfs : Bytes → ℤ
within_tebako_memfs path = if is_tebako_path path then negsuc 0 else pos 0

module _ (sys : System) (host : Host sys) (root : Root) (cwd : Cwd) where
  open sys use {Os}

  -- Behind the open.
  unfoldable pub check_open : FdTable → Os → ℤ → FdTable × Os × ℤ
  check_open fds os fd =
      let (ret, st) = stat_file sys host fds os fd in
      let (fds', os') = close_file sys host fds os fd in
      if fd ==ℤ negsuc 0
      then (fds, os, pos 0)
      else (fds', os', if ret ==ℤ pos 0 then negsuc 0 else pos 0)

  unfoldable pub tebako_file_load_ok : FdTable → Os → Bytes → FdTable × Os × ℤ
  tebako_file_load_ok fds os path =
      let (fds', os', fd) = open_file sys host root cwd fds os path in
      if within_tebako_memfs path ==ℤ pos 0 then (fds, os, pos 0) else check_open fds' os' fd

module _ (sys : System) (posix : IsPosix sys) (host : Host sys) (root : Root) (cwd : Cwd) where
  open sys use {Os, dup}

  check_open_lem :
      (fds : FdTable) (os : Os) (n : ℕ) (f : Found)
      → check_open sys host root cwd (assign (pos n) (new_entry f n) fds) os (pos n)
        ≡ (erase (pos n) (assign (pos n) (new_entry f n) fds), sys.close os n, negsuc 0)
  unfolding check_open
  check_open_lem fds os n f =
      let t = assign (pos n) (new_entry f n) fds in
      let found = find-assign_self (pos n) (new_entry f n) fds in
      let one = stat_file_lem sys host root cwd t os (pos n) (new_entry f n) found in
      let two = close_file_lem sys host root cwd t os (pos n) (new_entry f n) n found refl in
      rw (check_open, one) (rw two refl)

  -- A path that starts with the mount point, and whose search finds something that can be opened for
  -- reading: the answer is -1, every descriptor is what it was, and the one that was taken from the system
  -- for the test is given back.
  pub tebako_file_load_ok_lem :
      (fds : FdTable) (os os' : Os) (n : ℕ) (path p : Bytes)
      → is_tebako_path path ≡ true
      → to_tebako_path cwd path ≡ some p
      → admits read_only (root.stat p true path) ≡ true
      → IsBacked sys fds os
      → dup os ≡ some (n, os')
      → let r = tebako_file_load_ok sys host root cwd fds os path in
        (r.2 ≡ negsuc 0) × ((vfd : ℤ) → find vfd r.0 ≡ find vfd fds) × (sys.is_open r.1 n ≡ false)
  unfolding tebako_file_load_ok within_tebako_memfs
  tebako_file_load_ok_lem fds os os' n path p inside own h b d =
      let f = root.stat p true path in
      let opened = open_file_lem sys posix host root cwd fds os os' n path p own h b d in
      let done = check_open_lem fds os' n f in
      let whole : tebako_file_load_ok sys host root cwd fds os path
          ≡ (erase (pos n) (assign (pos n) (new_entry f n) fds), sys.close os' n, negsuc 0) =
        rw (tebako_file_load_ok, within_tebako_memfs, inside) (rw opened done) in
      rw whole (
        refl,
        λ vfd. ground (
          arith,
          find-erase (pos n) vfd (assign (pos n) (new_entry f n) fds),
          find-assign (pos n) vfd (new_entry f n) fds,
          ==ℤ_iff (pos n) vfd,
          fresh_free sys posix fds os os' n b d,
        ),
        ground (arith, posix.close_closes os' n n),
      )
