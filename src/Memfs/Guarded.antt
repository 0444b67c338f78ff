-- ===== src/Memfs/Guarded.antt =====
-- memfs::safe_dwarfs_call of src/tebako-memfs.cpp, which turns what a function of the image library does,
-- also where it throws, into a code and errno. Nothing calls it at present.
use libdwarfs.Prelude.{
  ℤ, pos, neg, ltb_ℤ, ◌≡◌, refl, false, none, some, if◌then◌else◌, arith, ◌⊎◌, inl, inr, Bool-cases,
}
use libdwarfs.Errno.{Errno, Out, returns, fails, dwarfs_io_error, eio}

-- What the function does: it returns, throws dwarfs::system_error with an errno, or throws another.
pub data Attempt : Type 0 where
  gives : ℤ → Attempt
  system_error : Errno → Attempt
  throws : Attempt

abbrev pub magnitude : ℤ → ℤ
magnitude e = if ltb_ℤ e (pos 0) then neg e else e

unfoldable pub safe_dwarfs_call : Attempt → Out ℤ
safe_dwarfs_call (gives ret) =
    if ltb_ℤ ret (pos 0) then fails dwarfs_io_error (magnitude ret) else returns ret
safe_dwarfs_call (system_error e) = fails dwarfs_io_error (magnitude e)
safe_dwarfs_call throws = fails dwarfs_io_error (magnitude eio)

magnitude_lem : (e : ℤ) → ltb_ℤ (magnitude e) (pos 0) ≡ false
magnitude_lem e = ground arith

-- Either the function returned a value that is not negative, which is the result with errno as it was,
-- or the result is -1, and errno is not negative.
pub safe_dwarfs_call_lem :
    (a : Attempt)
    → let r = safe_dwarfs_call a in
      ((a ≡ gives r.value) × (ltb_ℤ r.value (pos 0) ≡ false) × (r.errno ≡ none))
      ⊎ ((r.value ≡ dwarfs_io_error) × (e : Errno) × (r.errno ≡ some e) × (ltb_ℤ e (pos 0) ≡ false))
unfolding safe_dwarfs_call
safe_dwarfs_call_lem (gives ret) = elim (Bool-cases (ltb_ℤ ret (pos 0))) [
  | inl negative ↦ rw negative (inr (refl, magnitude ret, ground arith, magnitude_lem ret))
  | inr other ↦ rw other (inl (refl, other, refl))
]
safe_dwarfs_call_lem (system_error e) = inr (refl, magnitude e, refl, magnitude_lem e)
safe_dwarfs_call_lem throws = inr (refl, eio, refl, refl)
