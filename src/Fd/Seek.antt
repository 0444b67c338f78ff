-- ===== src/Fd/Seek.antt =====
-- sync_tebako_fdtable::lseek. The position is a `uint64_t`, the offset and the size are of `off_t`.
-- For the least `off_t`, `-offset` is out of range in the source; it is taken to wrap around.
use libdwarfs.Prelude.{
  ℕ, ℤ, pos, negsuc, suc, ◌==◌, ◌+ℤ◌, neg, ltb_ℤ, ◌-◌, ◌%◌, ◌^◌, none, some, ◌&&◌, ltb,
  if◌then◌else◌,
}
use libdwarfs.Prelude.Maps.{find, assign, int_eq}
use libdwarfs.Errno.{Out, returns, fails, dwarfs_invalid_fd, dwarfs_io_error, einval, eoverflow}
use libdwarfs.Fd.State.{Fd, FdTable}

abbrev pub off_max : ℕ
off_max = 2 ^ 63 - 1

-- The `uint64_t` that a signed value is stored as, and the `off_t` that one is read as.
abbrev pub to_u64 : ℤ → ℕ
to_u64 (pos n) = n % 2 ^ 64
to_u64 (negsuc n) = 2 ^ 64 - 1 - n % 2 ^ 64

abbrev pub to_off : ℕ → ℤ
to_off n = if ltb n (2 ^ 63) then pos n else negsuc (2 ^ 64 - n - 1)

pub data Whence : Type 0 where
  seek_set seek_cur seek_end invalid : Whence

-- ret = pos = value
unfoldable pub move_to : FdTable → ℤ → Fd → ℕ → FdTable × Out ℤ
move_to t vfd fd value = (assign vfd (record fd { position = value }) t, returns (to_off value))

-- `-offset` as an `off_t`.
abbrev pub negated : ℤ → ℤ
negated (pos n) = neg (pos n)
negated (negsuc n) = if n == off_max then negsuc n else pos (suc n)

-- The tests and the move of SEEK_CUR and SEEK_END, from the position or from the size; `least` is what the
-- base must not be below. The position is a `uint64_t` and is compared as one, the size as an `off_t`.
unfoldable pub seek_from : FdTable → ℤ → Fd → ℤ → ℤ → ℤ → FdTable × Out ℤ
seek_from t vfd fd base least offset =
    if ltb_ℤ offset (pos 0) && ltb_ℤ base least
    then (t, fails dwarfs_io_error einval)
    else if ltb_ℤ (pos 0) offset && ltb_ℤ (pos off_max +ℤ neg offset) base
    then (t, fails dwarfs_io_error eoverflow)
    else move_to t vfd fd (to_u64 (base +ℤ offset))

unfoldable pub seek : FdTable → ℤ → Fd → ℤ → Whence → FdTable × Out ℤ
seek t vfd fd offset seek_set =
    if ltb_ℤ offset (pos 0)
    then (t, fails dwarfs_io_error einval)
    else move_to t vfd fd (to_u64 offset)
seek t vfd fd offset seek_cur =
    seek_from t vfd fd (pos fd.position) (pos (to_u64 (negated offset))) offset
seek t vfd fd offset seek_end = seek_from t vfd fd fd.st.st_size (negated offset) offset
seek t vfd fd offset invalid = (t, fails dwarfs_io_error einval)

unfoldable pub lseek : FdTable → ℤ → ℤ → Whence → FdTable × Out ℤ
lseek t vfd offset whence = elim (find vfd t) [
  | none ↦ (t, returns dwarfs_invalid_fd)
  | some fd ↦ seek t vfd fd offset whence
]
