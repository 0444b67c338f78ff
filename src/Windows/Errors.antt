-- ===== src/Windows/Errors.antt =====
-- TEBAKO_SET_LAST_ERROR of include/tebako-common.h for Windows. The macro puts the text of its argument
-- in front of `==` without parentheses, so that an argument with `? :` is not compared as a whole. The
-- numbers are those of errno.h and winerror.h.
use libdwarfs.Prelude.{
  ℕ, ℤ, pos, negsuc, none, some, [], ◌∷◌, sym, ◌∙◌, ◌==ℤ◌, ◌≡◌, ◌≢◌, refl, Bool, true, false, not,
  if◌then◌else◌, arith, ==ℤ_iff,
}
use libdwarfs.Prelude.Maps.{Map, find, int_eq}
use libdwarfs.Errno.{Errno, enoent, ebadf, enomem, einval, erange}

abbrev pub enametoolong : Errno
enametoolong = pos 38

abbrev pub error_invalid_function : ℕ
error_invalid_function = 1

abbrev pub error_file_not_found : ℕ
error_file_not_found = 2

abbrev pub error_invalid_handle : ℕ
error_invalid_handle = 6

abbrev pub error_not_enough_memory : ℕ
error_not_enough_memory = 8

abbrev pub error_bad_length : ℕ
error_bad_length = 24

abbrev pub error_buffer_overflow : ℕ
error_buffer_overflow = 111

-- The argument of the macro: an operand of `==`, or a conditional expression with its condition.
pub data Argument : Type 0 where
  operand : Errno → Argument
  choice : Bool → Errno → Errno → Argument

abbrev pub value : Argument → Errno
value (operand e) = e
value (choice c a b) = if c then a else b

-- `e == k` with the text of the argument: `c ? a : b == k` is `c ? a : (b == k)`, and true where `a` is
-- chosen and not 0.
unfoldable pub compares : Argument → Errno → Bool
compares (operand e) k = e ==ℤ k
compares (choice c a b) k = if c then not (a ==ℤ pos 0) else b ==ℤ k

-- errno, the value of SetLastError, and _doserrno.
pub record LastErrors : Type 0 where
  pub errno : Errno
  pub last_error : ℕ
  pub doserrno : ℕ

abbrev pub both : Errno → ℕ → LastErrors
both e n = record { errno = e; last_error = n; doserrno = n }

unfoldable pub set_last_error : Argument → LastErrors
unfolding compares
set_last_error e =
    if compares e enomem
    then both (value e) error_not_enough_memory
    else if compares e enoent
    then both (value e) error_file_not_found
    else if compares e ebadf
    then both (value e) error_invalid_handle
    else if compares e enametoolong
    then both (value e) error_buffer_overflow
    else if compares e einval
    then both (value e) error_bad_length
    else if compares e erange
    then both (value e) error_buffer_overflow
    else both (value e) error_invalid_function

-- The specification: the error of winerror.h for each errno, and ERROR_INVALID_FUNCTION for the others.
abbrev pub pairs : Map ℤ ℕ
pairs =
    (enomem, 8) ∷ (enoent, 2) ∷ (ebadf, 6) ∷ (enametoolong, 111) ∷ (einval, 24) ∷ (erange, 111) ∷ []

abbrev pub documented : Errno → ℕ
documented e = elim (find e pairs) [ none ↦ 1 | some n ↦ n ]

operand-documented : (e : Errno) → set_last_error (operand e) ≡ both e (documented e)
unfolding set_last_error find
operand-documented (pos n) = ground arith
operand-documented (negsuc n) = refl

documented-memory : (e : Errno) → e ≢ enomem → documented e ≢ 8
unfolding find
documented-memory (pos n) h = ground arith
documented-memory (negsuc n) h = ground arith

-- An operand, and a conditional expression that chooses its second value, set errno to the value and the
-- last error to the one that belongs to it. A conditional expression that chooses its first value sets
-- errno to it, but, if it is neither 0 nor ENOMEM, the last error never to the one that belongs to it.
pub set_last_error-choice :
    (a b : Errno)
    → a ≢ pos 0
    → a ≢ enomem
    → (set_last_error (operand b) ≡ both b (documented b))
      × (set_last_error (choice false a b) ≡ both b (documented b))
      × ((set_last_error (choice true a b)).errno ≡ a)
      × ((set_last_error (choice true a b)).last_error ≢ documented a)
unfolding set_last_error
set_last_error-choice a b n m =
    let nonzero : (a ==ℤ pos 0) ≡ false = ground (arith, ==ℤ_iff a (pos 0)) in
    (
      operand-documented b,
      operand-documented b,
      ground arith,
      λ e. documented-memory a m (sym e ∙ rw nonzero refl),
    )
