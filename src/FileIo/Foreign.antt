-- ===== src/FileIo/Foreign.antt =====
-- Descriptors that are not those of memfs.
use libdwarfs.Prelude.{ℕ, ℤ, pos, ltb_ℤ, ◌≡◌, refl, Bool, false, none, List, []}
use libdwarfs.Prelude.Maps.{find, int_eq}
use libdwarfs.Errno.{dwarfs_io_error}
use libdwarfs.Root.{Root}
use libdwarfs.System.{System}
use libdwarfs.Fd.State.{FdTable, close_fd, fstat, flock}
use libdwarfs.Fd.Seek.{Whence, lseek}
use libdwarfs.Fd.Read.{read, pread, readv}
use libdwarfs.FileIo.{
  hand_over, tebako_lseek, tebako_read, tebako_readv, tebako_pread, tebako_close, tebako_fstat,
  tebako_flock, tebako_fgetattrlist,
}

-- On a descriptor that the table does not have, each call leaves the table and its descriptors of the
-- system as they are, and goes to the system if the system knows the descriptor. Otherwise it
-- fails with EBADF. For readv this needs a count that is not negative.
pub calls_foreign :
    (sys : System) (is_valid_system : ℤ → Bool) (root : Root) (t : FdTable) (os : sys.Os) (vfd : ℤ)
    (offset : ℤ) (whence : Whence) (nbyte operation : ℕ) (iov : List ℕ) (iovcnt : ℤ)
    → find vfd t ≡ none
    → ltb_ℤ iovcnt (pos 0) ≡ false
    → (tebako_lseek is_valid_system t vfd offset whence
        ≡ (t, hand_over is_valid_system vfd dwarfs_io_error))
      × (tebako_read is_valid_system root t vfd nbyte
          ≡ (t, hand_over is_valid_system vfd (dwarfs_io_error, [])))
      × (tebako_readv is_valid_system root t vfd iov iovcnt
          ≡ (t, hand_over is_valid_system vfd (dwarfs_io_error, [])))
      × (tebako_pread is_valid_system root t vfd nbyte offset
          ≡ hand_over is_valid_system vfd (dwarfs_io_error, []))
      × (tebako_close is_valid_system sys t os vfd
          ≡ (t, os, hand_over is_valid_system vfd dwarfs_io_error))
      × (tebako_fstat is_valid_system t vfd ≡ hand_over is_valid_system vfd (dwarfs_io_error, none))
      × (tebako_flock is_valid_system t vfd operation
          ≡ (t, hand_over is_valid_system vfd dwarfs_io_error))
      × (tebako_fgetattrlist is_valid_system t vfd ≡ hand_over is_valid_system vfd dwarfs_io_error)
unfolding tebako_lseek lseek tebako_read read tebako_readv readv tebako_pread pread tebako_close
    close_fd tebako_fstat fstat tebako_flock flock tebako_fgetattrlist
calls_foreign sys is_valid_system root t os vfd offset whence nbyte operation iov iovcnt e c = (
  rw (tebako_lseek, lseek, e) refl,
  rw (tebako_read, read, e) refl,
  rw (tebako_readv, readv, c, e) refl,
  rw (tebako_pread, pread, e) refl,
  rw (tebako_close, close_fd, e) refl,
  rw (tebako_fstat, fstat, e) refl,
  rw (tebako_flock, flock, e) refl,
  rw (tebako_fgetattrlist, fstat, e) refl,
)
