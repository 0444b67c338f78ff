-- ===== src/Fd/SeekLaws.antt =====
-- `lseek` against POSIX: the new offset is the base of `whence` plus the offset, where that is an
-- `off_t` of at least 0.
use libdwarfs.Prelude.{
  ℕ, ℤ, pos, negsuc, ◌+ℤ◌, ◌≤◌, ◌<◌, ◌≡◌, ◌≢◌, refl, sym, subst, some, ltb, if◌then◌else◌, arith,
}
use libdwarfs.Prelude.Maps.{find, assign, int_eq, find-assign_self}
use libdwarfs.Errno.{Out, returns, fails, dwarfs_io_error, einval, eoverflow}
use libdwarfs.Fd.State.{Fd, FdTable}
use libdwarfs.Fd.Seek.{
  Whence, seek_set, seek_cur, seek_end, invalid, off_max, to_u64, negated, seek, seek_from, move_to,
  lseek,
}

-- What the offset is added to.
abbrev pub seek_base : Fd → Whence → ℤ
seek_base fd seek_set = pos 0
seek_base fd seek_cur = pos fd.position
seek_base fd seek_end = fd.st.st_size
seek_base fd invalid = pos 0

-- The specification: the target decides.
abbrev pub seek_spec : FdTable → ℤ → Fd → ℤ → FdTable × Out ℤ
seek_spec t vfd fd (negsuc n) = (t, fails dwarfs_io_error einval)
seek_spec t vfd fd (pos n) =
    if ltb off_max n
    then (t, fails dwarfs_io_error eoverflow)
    else (assign vfd (record fd { position = n }) t, returns (pos n))

-- An `off_t` offset other than the least one, whose negation is no `off_t`.
abbrev pub IsOffset : ℤ → Type 0
IsOffset (pos n) = n ≤ off_max
IsOffset (negsuc n) = n < off_max

seek_from_lem :
    (t : FdTable) (vfd : ℤ) (fd : Fd) (base : ℕ) (offset : ℤ)
    → base ≤ off_max
    → IsOffset offset
    → (seek_from t vfd fd (pos base) (negated offset) offset
        ≡ seek_spec t vfd fd (pos base +ℤ offset))
      × (seek_from t vfd fd (pos base) (pos (to_u64 (negated offset))) offset
          ≡ seek_spec t vfd fd (pos base +ℤ offset))
unfolding seek_from move_to
seek_from_lem t vfd fd base (pos n) h k = (ground arith, ground arith)
seek_from_lem t vfd fd base (negsuc n) h k = (ground arith, ground arith)

seek_set_lem :
    (t : FdTable) (vfd : ℤ) (fd : Fd) (offset : ℤ)
    → IsOffset offset
    → seek t vfd fd offset seek_set ≡ seek_spec t vfd fd (pos 0 +ℤ offset)
unfolding seek move_to
seek_set_lem t vfd fd (pos n) h = ground arith
seek_set_lem t vfd fd (negsuc n) h = ground arith

-- For an open file whose position and size are `off_t` values, and every `off_t` offset but the least: lseek
-- follows `seek_spec` at the base of whence plus the offset. That is, a target below 0 gives EINVAL
-- and one above the largest `off_t` EOVERFLOW, with the table as it was, and any other target becomes
-- the position and the result.
pub lseek_lem :
    (t : FdTable) (vfd : ℤ) (fd : Fd) (size : ℕ) (offset : ℤ) (whence : Whence)
    → find vfd t ≡ some fd
    → fd.st.st_size ≡ pos size
    → fd.position ≤ off_max
    → size ≤ off_max
    → IsOffset offset
    → whence ≢ invalid
    → lseek t vfd offset whence ≡ seek_spec t vfd fd (seek_base fd whence +ℤ offset)
unfolding lseek
lseek_lem t vfd fd size offset seek_set e s p q o w = rw (e, lseek) (seek_set_lem t vfd fd offset o)
lseek_lem t vfd fd size offset seek_cur e s p q o w =
    rw (e, lseek) (unfold seek in (seek_from_lem t vfd fd fd.position offset p o).1)
lseek_lem t vfd fd size offset seek_end e s p q o w =
    rw (e, lseek)
      (unfold seek in
        subst (λ x. seek_from t vfd fd x (negated offset) offset ≡ seek_spec t vfd fd (x +ℤ offset))
          (sym s) (seek_from_lem t vfd fd size offset q o).0)
lseek_lem t vfd fd size offset invalid e s p q o w = absurd (w refl)

lseek_invalid : (t : FdTable) (vfd offset : ℤ) → (lseek t vfd offset invalid).0 ≡ t
unfolding lseek seek
lseek_invalid t vfd offset = ground arith

spec_position :
    (t : FdTable) (vfd : ℤ) (fd fd' : Fd) (target : ℤ)
    → find vfd t ≡ some fd
    → fd.position ≤ off_max
    → find vfd (seek_spec t vfd fd target).0 ≡ some fd'
    → (fd'.position ≤ off_max) × (fd'.st ≡ fd.st) × (fd'.handle ≡ fd.handle)
spec_position t vfd fd fd' (pos n) e p f =
    ground (arith, find-assign_self vfd (record fd { position = n }) t)
spec_position t vfd fd fd' (negsuc n) e p f = ground arith

-- A position that lseek gave is an `off_t`, so the next seek finds it in range.
pub lseek_position :
    (t : FdTable) (vfd : ℤ) (fd fd' : Fd) (size : ℕ) (offset : ℤ) (whence : Whence)
    → find vfd t ≡ some fd
    → fd.st.st_size ≡ pos size
    → fd.position ≤ off_max
    → size ≤ off_max
    → IsOffset offset
    → find vfd (lseek t vfd offset whence).0 ≡ some fd'
    → (fd'.position ≤ off_max) × (fd'.st ≡ fd.st) × (fd'.handle ≡ fd.handle)
lseek_position t vfd fd fd' size offset invalid e s p q o f =
    spec_position t vfd fd fd' (negsuc 0) e p (rw (lseek_invalid t vfd offset) at f)
lseek_position t vfd fd fd' size offset seek_set e s p q o f =
    spec_position t vfd fd fd' (seek_base fd seek_set +ℤ offset) e p
      (rw (lseek_lem t vfd fd size offset seek_set e s p q o (λ x. cc)) at f)
lseek_position t vfd fd fd' size offset seek_cur e s p q o f =
    spec_position t vfd fd fd' (seek_base fd seek_cur +ℤ offset) e p
      (rw (lseek_lem t vfd fd size offset seek_cur e s p q o (λ x. cc)) at f)
lseek_position t vfd fd fd' size offset seek_end e s p q o f =
    spec_position t vfd fd fd' (seek_base fd seek_end +ℤ offset) e p
      (rw (lseek_lem t vfd fd size offset seek_end e s p q o (λ x. cc)) at f)
