-- ===== src/Redirects.antt =====
-- The macros of include/tebako-defines.h that put the functions of this library in the place of the
-- system's calls: in the sources of a program, and (RB_W32) in those of Ruby for Windows.
mod Tests
use libdwarfs.Prelude.{
  ℕ, zero, suc, ◌+◌, ◌-◌, ◌<◌, ◌≤◌, ◌==◌, ◌≡◌, ◌∙◌, ap, refl, Bool, true, false, ◌&&◌, ◌||◌, Option,
  none, some, List, [], ◌∷◌, ◌++◌, map, Bytes, ascii, bytes_eq, length, get_elem?, if◌then◌else◌,
  arith,
}

-- What stands in an argument list: the text of an argument, the empty text, or a number of the macros.
pub data Token (A : Type 0) : Type 0 where
  argument : A → Token A
  blank : Token A
  number : ℕ → Token A

module _ {A : Type 0} where
  -- _TEBAKO_PP_RSEQ_N: from the number in front down to 0.
  unfoldable pub rseq : ℕ → List (Token A)
  rseq zero = number 0 ∷ []
  rseq (suc n) = number (suc n) ∷ rseq n

  -- _TEBAKO_PP_ARG_N: the argument behind the first 63.
  unfoldable pub arg_n : List (Token A) → Option (Token A)
  arg_n args = get_elem? args 63

  -- __VA_ARGS__ in front of or behind a comma: with no argument it is one, the empty text.
  unfoldable pub va_args : List A → List (Token A)
  va_args [] = blank ∷ []
  va_args (a ∷ args) = map argument (a ∷ args)

  unfoldable pub nargs : List A → Option (Token A)
  nargs args = arg_n (va_args args ++ rseq 63)

-- How a macro writes the call: with the arguments as they are, with their number in front, or with a 0
-- behind them.
pub data Form : Type 0 where
  same counted from_start : Form

-- A macro: the feature that it needs, if any, the name that it takes, and the name that it writes.
pub record Redirect : Type 0 where
  pub feature : Option Bytes
  pub from : Bytes
  pub to : Bytes
  pub form : Form

abbrev plain : Bytes → Redirect
plain name = record { feature = none; from = name; to = ascii "tebako_" ++ name; form = same }

abbrev needs : Bytes → Bytes → Redirect
needs feature name = record (plain name) { feature = some feature }

abbrev ruby : Bytes → Bytes → Form → Redirect
ruby from to form = record {
  feature = none;
  from = ascii "rb_w32_" ++ from;
  to = ascii "tebako_" ++ to;
  form = form;
}

-- The macros behind those of the two kinds of system.
unfoldable pub shared_redirects : List Redirect
shared_redirects =
    needs (ascii "TEBAKO_HAS_DIRFD") (ascii "dirfd")
    ∷ needs (ascii "TEBAKO_HAS_SCANDIR") (ascii "scandir")
    ∷ needs (ascii "TEBAKO_HAS_GETATTRLIST") (ascii "getattrlist")
    ∷ needs (ascii "TEBAKO_HAS_FGETATTRLIST") (ascii "fgetattrlist")
    ∷ needs (ascii "TEBAKO_HAS_FSTATAT") (ascii "fstatat")
    ∷ record (needs (ascii "TEBAKO_HAS_OPENAT") (ascii "openat")) { form = counted }
    ∷ plain (ascii "readlink")
    ∷ needs (ascii "TEBAKO_HAS_READV") (ascii "readv")
    ∷ plain (ascii "dlopen")
    ∷ plain (ascii "dlerror")
    ∷ []

unfoldable pub posix_redirects : List Redirect
posix_redirects =
    plain (ascii "mkdir")
    ∷ plain (ascii "rmdir")
    ∷ plain (ascii "unlink")
    ∷ plain (ascii "getcwd")
    ∷ plain (ascii "chdir")
    ∷ plain (ascii "access")
    ∷ needs (ascii "TEBAKO_HAS_EACCESS") (ascii "eaccess")
    ∷ plain (ascii "stat")
    ∷ plain (ascii "fstat")
    ∷ needs (ascii "TEBAKO_HAS_LSTAT") (ascii "lstat")
    ∷ record (plain (ascii "open")) { form = counted }
    ∷ plain (ascii "read")
    ∷ needs (ascii "TEBAKO_HAS_PREAD") (ascii "pread")
    ∷ plain (ascii "lseek")
    ∷ plain (ascii "close")
    ∷ needs (ascii "TEBAKO_HAS_OPENDIR") (ascii "opendir")
    ∷ needs (ascii "TEBAKO_HAS_FDOPENDIR") (ascii "fdopendir")
    ∷ needs (ascii "TEBAKO_HAS_CLOSEDIR") (ascii "closedir")
    ∷ needs (ascii "TEBAKO_HAS_READDIR") (ascii "readdir")
    ∷ needs (ascii "TEBAKO_HAS_TELLDIR") (ascii "telldir")
    ∷ needs (ascii "TEBAKO_HAS_SEEKDIR") (ascii "seekdir")
    ∷ record (needs (ascii "TEBAKO_HAS_SEEKDIR") (ascii "seekdir")) {
      from = ascii "rewinddir";
      form = from_start;
    }
    ∷ needs (ascii "TEBAKO_HAS_FLOCK") (ascii "flock")
    ∷ shared_redirects

-- RB_W32. The second argument of readdir is cast to `void*`.
unfoldable pub ruby_redirects : List Redirect
ruby_redirects =
    ruby (ascii "umkdir") (ascii "mkdir") same
    ∷ ruby (ascii "urmdir") (ascii "rmdir") same
    ∷ ruby (ascii "uunlink") (ascii "unlink") same
    ∷ ruby (ascii "ugetcwd") (ascii "getcwd") same
    ∷ ruby (ascii "uchdir") (ascii "chdir") same
    ∷ ruby (ascii "access") (ascii "access") same
    ∷ ruby (ascii "uaccess") (ascii "access") same
    ∷ ruby (ascii "stati128") (ascii "stat") same
    ∷ ruby (ascii "ustati128") (ascii "stat") same
    ∷ ruby (ascii "fstati128") (ascii "fstat") same
    ∷ ruby (ascii "lstati128") (ascii "lstat") same
    ∷ ruby (ascii "ulstati128") (ascii "lstat") same
    ∷ ruby (ascii "open") (ascii "open") counted
    ∷ ruby (ascii "uopen") (ascii "open") counted
    ∷ ruby (ascii "read") (ascii "read") same
    ∷ ruby (ascii "pread") (ascii "pread") same
    ∷ ruby (ascii "lseek") (ascii "lseek") same
    ∷ ruby (ascii "close") (ascii "close") same
    ∷ ruby (ascii "opendir") (ascii "opendir") same
    ∷ ruby (ascii "uopendir") (ascii "opendir") same
    ∷ ruby (ascii "readdir") (ascii "readdir") same
    ∷ ruby (ascii "telldir") (ascii "telldir") same
    ∷ ruby (ascii "seekdir") (ascii "seekdir") same
    ∷ ruby (ascii "rewinddir") (ascii "seekdir") from_start
    ∷ ruby (ascii "closedir") (ascii "closedir") same
    ∷ plain (ascii "flock")
    ∷ shared_redirects

-- The features are those that the build found.
abbrev pub enabled : (Bytes → Bool) → Redirect → Bool
enabled has r = elim r.feature [ none ↦ true | some f ↦ has f ]

unfoldable pub lookup : (Bytes → Bool) → List Redirect → Bytes → Option Redirect
lookup has [] name = none
lookup has (r ∷ rs) name =
    if bytes_eq r.from name && enabled has r then some r else lookup has rs name

open-lookup :
    (has : Bytes → Bool)
    → lookup has posix_redirects (ascii "open")
      ≡ some
          (record { feature = none; from = ascii "open"; to = ascii "tebako_open"; form = counted })
unfolding lookup posix_redirects bytes_eq
open-lookup has = refl

module _ {A : Type 0} where
  unfoldable pub write : Redirect → List A → Option (Bytes × List (Token A))
  write r args = elim r.form [
    | same ↦ some (r.to, map argument args)
    | counted ↦ elim (nargs args) [ none ↦ none | some n ↦ some (r.to, n ∷ va_args args) ]
    | from_start ↦ some (r.to, va_args args ++ number 0 ∷ [])
  ]

  -- What becomes of a call.
  unfoldable pub expand :
      (Bytes → Bool) → List Redirect → Bytes → List A → Option (Bytes × List (Token A))
  expand has rs name args = elim (lookup has rs name) [
    | none ↦ some (name, map argument args)
    | some r ↦ write r args
  ]

  -- The variable arguments of tebako_open and tebako_openat in src/file-io.cpp, behind `named` others:
  -- with one argument more the mode is taken from them. `none` is no mode.
  unfoldable pub taken_mode : ℕ → Token A → List A → Option A
  taken_mode named (argument a) args = none
  taken_mode named blank args = none
  taken_mode named (number n) args = if n == named then none else get_elem? args named

  get_elem?-rseq : (n k : ℕ) → k ≤ n → get_elem? (rseq {A = A} n) k ≡ some (number (n - k))
  unfolding rseq
  get_elem?-rseq zero zero h = refl
  get_elem?-rseq zero (suc k) h = absurd (omega arith)
  get_elem?-rseq (suc n) zero h = ap (λ (i : ℕ). some (number i)) (omega arith)
  get_elem?-rseq (suc n) (suc k) h =
      get_elem?-rseq n k (omega arith) ∙ ap (λ (i : ℕ). some (number i)) (omega arith)

  get_elem?-behind :
      (xs : List A) (ys : List (Token A)) (k : ℕ)
      → length xs ≤ k
      → get_elem? (map argument xs ++ ys) k ≡ get_elem? ys (k - length xs)
  get_elem?-behind [] ys k h = ap (get_elem? ys) (omega arith)
  get_elem?-behind (x ∷ xs) ys zero h = absurd (omega arith)
  get_elem?-behind (x ∷ xs) ys (suc k) h =
      get_elem?-behind xs ys k (omega arith) ∙ ap (get_elem? ys) (omega arith)

  -- The number of one argument or more, up to 63.
  pub nargs_lem :
      (a : A) (rest : List A)
      → length rest ≤ 62
      → nargs (a ∷ rest) ≡ some (number (suc (length rest)))
  unfolding nargs va_args arg_n
  nargs_lem a rest h =
      get_elem?-behind (a ∷ rest) (rseq 63) 63 (omega arith)
      ∙ get_elem?-rseq 63 (63 - length (a ∷ rest)) (omega arith)
      ∙ ap (λ (i : ℕ). some (number i)) (omega arith)

  -- No argument counts as one.
  nargs_none : nargs {A = A} [] ≡ some (number 1)
  unfolding nargs va_args arg_n rseq
  nargs_none = refl

  taken :
      (path flags : A) (mode : List A)
      → length mode ≤ 1
      → taken_mode 2 (number (2 + length mode)) (path ∷ flags ∷ mode) ≡ get_elem? mode 0
  unfolding taken_mode
  taken path flags [] h = ground arith
  taken path flags (m ∷ []) h = ground arith
  taken path flags (m ∷ x ∷ mode) h = absurd (omega arith)

  -- A call of open, whatever the features: it becomes a call of tebako_open with the number of the
  -- arguments in front, from which the function sees whether there is a mode.
  pub open_redirect :
      (has : Bytes → Bool) (path flags : A) (mode : List A)
      → length mode ≤ 1
      → let n : Token A = number (2 + length mode) in
        (expand has posix_redirects (ascii "open") (path ∷ flags ∷ mode)
          ≡ some (ascii "tebako_open", n ∷ map argument (path ∷ flags ∷ mode)))
        × (taken_mode 2 n (path ∷ flags ∷ mode) ≡ get_elem? mode 0)
  unfolding expand write va_args
  open_redirect has path flags mode h =
      let counted_args : nargs (path ∷ flags ∷ mode) ≡ some (number (2 + length mode)) =
        nargs_lem path (flags ∷ mode) (omega arith)
        ∙ ap (λ (i : ℕ). some (number i)) (omega arith) in
      (rw (expand, open-lookup has, write, counted_args) refl, taken path flags mode h)
