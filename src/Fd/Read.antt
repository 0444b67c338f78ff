-- ===== src/Fd/Read.antt =====
-- sync_tebako_fdtable::read, pread, readdir and readv. Buffers are results: the bytes written to `buf`,
-- or one chunk for each buffer of a vector that was filled.
use libdwarfs.Prelude.{
  ℕ, ℤ, pos, ◌+ℤ◌, neg, ltb_ℤ, int_of, pos_part, Option, none, some, List, [], ◌∷◌, Bytes, take,
  if◌then◌else◌,
}
use libdwarfs.Prelude.Maps.{find, assign, int_eq}
use libdwarfs.Errno.{
  Errno, Out, returns, fails, later, dwarfs_invalid_fd, dwarfs_io_error, einval, eoverflow,
}
use libdwarfs.Root.{Root, Listing}
use libdwarfs.Fd.State.{Fd, FdTable}
use libdwarfs.Fd.Seek.{off_max, to_u64, to_off}

-- pos += ret, on the `uint64_t`.
abbrev pub advance : Fd → ℤ → Fd
advance fd n = record fd { position = to_u64 (pos fd.position +ℤ n) }

-- The loop: the descriptor, the count so far, the chunks so far (last first) and errno.
pub record Vector : Type 0 where
  pub fd : Fd
  pub ret : ℤ
  pub chunks : List Bytes
  pub errno : Option Errno

module _ (root : Root) where
  -- The count is stored in an `int`.
  unfoldable pub read : FdTable → ℤ → ℕ → FdTable × Out (ℤ × Bytes)
  read t vfd nbyte = elim (find vfd t) [
    | none ↦ (t, returns (dwarfs_invalid_fd, []))
    | some fd ↦
        let r = root.inode_read fd.st.st_ino nbyte (to_off fd.position) in
        let ret = int_of r.value.0 in
        (
          if ltb_ℤ (pos 0) ret then assign vfd (advance fd ret) t else t,
          record { value = (ret, r.value.1); errno = r.errno },
        )
  ]

  unfoldable pub pread : FdTable → ℤ → ℕ → ℤ → Out (ℤ × Bytes)
  pread t vfd nbyte offset = elim (find vfd t) [
    | none ↦ returns (dwarfs_invalid_fd, [])
    | some fd ↦ root.inode_read fd.st.st_ino nbyte offset
  ]

  unfoldable pub readdir : FdTable → ℤ → ℤ → ℕ → Listing
  readdir t vfd cache_start buffer_size = elim (find vfd t) [
    | none ↦ record { ret = dwarfs_invalid_fd; entries = []; dir_size = none; errno = none }
    | some fd ↦ root.inode_readdir fd.st.st_ino cache_start buffer_size
  ]

  unfoldable pub readv_loop : List ℕ → Fd → ℤ → Option Errno → Vector
  readv_loop [] fd ret e = record { fd = fd; ret = ret; chunks = []; errno = e }
  readv_loop (len ∷ iov) fd ret e =
      let r = root.inode_read fd.st.st_ino len (to_off fd.position) in
      let ssize = r.value.0 in
      let rest = readv_loop iov (advance fd ssize) (ret +ℤ ssize) (later e r.errno) in
      if ltb_ℤ (pos 0) ssize
      then (if ltb_ℤ (pos off_max +ℤ neg ssize) (pos fd.position)
          then record {
            fd = fd;
            ret = dwarfs_io_error;
            chunks = r.value.1 ∷ [];
            errno = some eoverflow;
          }
          else if ltb_ℤ (pos off_max +ℤ neg ssize) ret
          then record {
            fd = fd;
            ret = dwarfs_io_error;
            chunks = r.value.1 ∷ [];
            errno = some einval;
          }
          else record rest { chunks = r.value.1 ∷ rest.chunks })
      else record {
        fd = fd;
        ret = if ltb_ℤ ssize (pos 0) then dwarfs_io_error else ret;
        chunks = [];
        errno = later e r.errno;
      }

  unfoldable pub readv : FdTable → ℤ → List ℕ → ℤ → FdTable × Out (ℤ × List Bytes)
  readv t vfd iov iovcnt =
      if ltb_ℤ iovcnt (pos 0) then (t, fails (dwarfs_io_error, []) einval) else elim (find vfd t) [
        | none ↦ (t, returns (dwarfs_invalid_fd, []))
        | some fd ↦
            let v = readv_loop (take (pos_part iovcnt) iov) fd (pos 0) none in
            (assign vfd v.fd t, record { value = (v.ret, v.chunks); errno = v.errno })
      ]
