-- ===== src/Paths/Append.antt =====
-- Appending the elements of a path one by one, as the loops in src/tebako-memfs.cpp do.
use libdwarfs.Prelude.{
  ◌≡◌, refl, ◌∙◌, ap, true, false, List, [], ◌∷◌, ◌++◌, Bytes, bytes_eq, arith, Bool-cases, inl,
  inr, append_assoc, append-nil, sym, bytes_eq_sound,
}
use libdwarfs.Paths.{
  FsPath, slash, is_empty, is_absolute, append_name, append, append_all, lexically_normal,
}

-- Elements that are neither empty nor a root directory.
abbrev pub AllPlain : List Bytes → Type 0
AllPlain [] = Unit {0}
AllPlain (e ∷ es) = (is_empty e ≡ false) × (bytes_eq e slash ≡ false) × AllPlain es

append_name-end :
    (p : FsPath) (e : Bytes) → AllPlain p → is_empty e ≡ false → append_name p e ≡ p ++ e ∷ []
unfolding append_name
append_name-end [] e a n = rw n refl
append_name-end (x ∷ []) e a n = rw (a.0, a.1) refl
append_name-end (x ∷ y ∷ p) e a n = ap (◌∷◌ x) (append_name-end (y ∷ p) e a.2 n)

append-AllPlain :
    (p : FsPath) (e : Bytes)
    → AllPlain p
    → is_empty e ≡ false
    → bytes_eq e slash ≡ false
    → AllPlain (p ++ e ∷ [])
append-AllPlain [] e a n s = (n, s, tt)
append-AllPlain (x ∷ p) e a n s = (a.0, a.1, append-AllPlain p e a.2 n s)

pub append_all-end :
    (p : FsPath) (es : List Bytes) → AllPlain p → AllPlain es → append_all p es ≡ p ++ es
unfolding append_all append
append_all-end p [] a b = sym (append-nil p)
append_all-end p (e ∷ es) a b =
    rw (b.1, append_name-end p e a b.0)
      (append_all-end (p ++ e ∷ []) es (append-AllPlain p e a b.0 b.1) b.2
        ∙ append_assoc p (e ∷ []) es)

-- Plain elements that are appended to an empty path are that path.
pub append_all-plain : (es : List Bytes) → AllPlain es → append_all [] es ≡ es
append_all-plain es a = append_all-end [] es tt a

-- An absolute path stays one, whatever is appended.
append-absolute : (p : FsPath) (e : Bytes) → (q : FsPath) × (append (slash ∷ p) e ≡ slash ∷ q)
unfolding append append_name bytes_eq
append-absolute [] e = elim (Bool-cases (bytes_eq e slash)) [
  | inl s ↦ ([], rw (append, s) (ap (λ x. x ∷ []) (bytes_eq_sound e slash s)))
  | inr s ↦ elim (Bool-cases (is_empty e)) [
    | inl n ↦ ([], rw (append, s, n) refl)
    | inr n ↦ (e ∷ [], rw (append, s, n) refl)
  ]
]
append-absolute (y ∷ p) e = elim (Bool-cases (bytes_eq e slash)) [
  | inl s ↦ ([], rw (append, s) (ap (λ x. x ∷ []) (bytes_eq_sound e slash s)))
  | inr s ↦ (append_name (y ∷ p) e, rw (append, s) refl)
]

append_all-absolute :
    (p : FsPath) (es : List Bytes) → (q : FsPath) × (append_all (slash ∷ p) es ≡ slash ∷ q)
unfolding append_all
append_all-absolute p [] = (p, refl)
append_all-absolute p (e ∷ es) =
    let (q, h) = append-absolute p e in
    let (r, k) = append_all-absolute q es in (r, ap (λ x. append_all x es) h ∙ k)

-- What is appended to an absolute path leaves it absolute, also when it is normalized.
pub normal-absolute :
    (p : FsPath) (es : List Bytes)
    → is_absolute p ≡ true
    → is_absolute (lexically_normal (append_all p es)) ≡ true
unfolding lexically_normal bytes_eq
normal-absolute [] es a = absurd (ground arith)
normal-absolute (x ∷ p) es a =
    let (q, e) = append_all-absolute p es in rw (bytes_eq_sound x slash a, e) refl
