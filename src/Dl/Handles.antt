-- ===== src/Dl/Handles.antt =====
-- The open of a file of memfs for reading, and the calls on its descriptor, carried to their end.
use libdwarfs.Prelude.{ℕ, ℤ, pos, ◌≡◌, refl, ◌∙◌, true, some, Bytes}
use libdwarfs.Prelude.Maps.{find, assign, erase, int_eq}
use libdwarfs.Errno.{returns, dwarfs_io_continue}
use libdwarfs.Calls.{answered}
use libdwarfs.Root.{Root}
use libdwarfs.System.{System, IsPosix}
use libdwarfs.Cwd.{Cwd, to_tebako_path}
use libdwarfs.Fd.State.{Fd, FdTable, close_fd, destroy, fstat}
use libdwarfs.Fd.Open.{open_path}
use libdwarfs.Fd.OpenLaws.{settle-admits}
use libdwarfs.Fd.Descriptors.{IsBacked, admits, new_entry, take_descriptor-some}
use libdwarfs.FileIo.{tebako_open, tebako_fstat, tebako_close}
use libdwarfs.Dl.Foreign.{Host, read_only, open_file, stat_file, close_file}

module _ (sys : System) (host : Host sys) (root : Root) (cwd : Cwd) where
  open sys use {Os}

  pub stat_file_lem :
      (fds : FdTable) (os : Os) (vfd : ℤ) (fd : Fd)
      → find vfd fds ≡ some fd
      → stat_file sys host fds os vfd ≡ (pos 0, fd.st)
  unfolding stat_file tebako_fstat fstat
  stat_file_lem fds os vfd fd f = rw (stat_file, tebako_fstat, fstat, f) refl

  closed_lem :
      (fds : FdTable) (os : Os) (vfd : ℤ) (fd : Fd) (n : ℕ)
      → find vfd fds ≡ some fd
      → fd.handle ≡ some n
      → close_fd sys fds os vfd ≡ (erase vfd fds, sys.close os n, dwarfs_io_continue)
  unfolding close_fd destroy
  closed_lem fds os vfd fd n f h = rw (f, close_fd) (rw (h, destroy) refl)

  tebako_close_lem :
      (fds : FdTable) (os : Os) (vfd : ℤ) (fd : Fd) (n : ℕ)
      → find vfd fds ≡ some fd
      → fd.handle ≡ some n
      → tebako_close (host.is_valid os) sys fds os vfd
        ≡ (erase vfd fds, sys.close os n, answered (returns dwarfs_io_continue))
  unfolding tebako_close
  tebako_close_lem fds os vfd fd n f h = rw (tebako_close, closed_lem fds os vfd fd n f h) refl

  pub close_file_lem :
      (fds : FdTable) (os : Os) (vfd : ℤ) (fd : Fd) (n : ℕ)
      → find vfd fds ≡ some fd
      → fd.handle ≡ some n
      → close_file sys host fds os vfd ≡ (erase vfd fds, sys.close os n)
  unfolding close_file
  close_file_lem fds os vfd fd n f h =
      let e = tebako_close_lem fds os vfd fd n f h in rw (close_file, e) (rw e refl)

module _ (sys : System) (posix : IsPosix sys) (host : Host sys) (root : Root) (cwd : Cwd) where
  open sys use {Os, dup}

  opened_lem :
      (fds : FdTable) (os os' : Os) (n : ℕ) (path p : Bytes)
      → let f = root.stat p true path in
        to_tebako_path cwd path ≡ some p
        → admits read_only f ≡ true
        → IsBacked sys fds os
        → dup os ≡ some (n, os')
        → tebako_open sys root cwd fds os (some path) read_only ≡ (
          assign (pos n) (new_entry f n) fds,
          os',
          answered (record { value = pos n; errno = f.errno }),
        )
  unfolding tebako_open open_path
  opened_lem fds os os' n path p own h b d =
      let f = root.stat p true path in
      let opened : open_path sys root fds os p read_only path ≡ record {
        ret = pos n;
        lnk = f.lnk;
        errno = f.errno;
        table = assign (pos n) (new_entry f n) fds;
        os = os';
      } =
        settle-admits sys posix fds os read_only f h
        ∙ take_descriptor-some sys posix fds os os' n f b d in
      rw (tebako_open, own, opened) refl

  pub open_file_lem :
      (fds : FdTable) (os os' : Os) (n : ℕ) (path p : Bytes)
      → let f = root.stat p true path in
        to_tebako_path cwd path ≡ some p
        → admits read_only f ≡ true
        → IsBacked sys fds os
        → dup os ≡ some (n, os')
        → open_file sys host root cwd fds os path ≡ (assign (pos n) (new_entry f n) fds, os', pos n)
  unfolding open_file
  open_file_lem fds os os' n path p own h b d =
      let e = opened_lem fds os os' n path p own h b d in rw (open_file, e) (rw e refl)
