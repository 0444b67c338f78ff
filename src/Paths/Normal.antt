-- ===== src/Paths/Normal.antt =====
-- What a normalized path looks like.
use libdwarfs.Prelude.{
  ◌≡◌, refl, ap, ◌⊎◌, Bool, true, false, not, ◌&&◌, List, [], ◌∷◌, ◌++◌, Bytes, ascii, bytes_eq,
  arith, Bool-cases, inl, inr,
}
use libdwarfs.Paths.{
  slash, is_empty, is_up, climb, normal_step, normal_loop, reverse_onto, closing, lexically_normal,
}

-- A component that names an entry of a directory.
abbrev pub is_name : Bytes → Bool
is_name e = not (is_empty e) && not (bytes_eq e (ascii ".")) && not (is_up e)

abbrev pub AllNames : List Bytes → Type 0
AllNames [] = Unit {0}
AllNames (e ∷ es) = (is_name e ≡ true) × AllNames es

step-AllNames :
    (s : List Bytes × Bool) (e : Bytes) → AllNames s.0 → AllNames (normal_step true s e).0
unfolding normal_step climb
step-AllNames ([], due) e a = ground arith
step-AllNames (x ∷ kept, due) e a = ground arith

loop-AllNames :
    (s : List Bytes × Bool) (es : List Bytes) → AllNames s.0 → AllNames (normal_loop true s es).0
unfolding normal_loop
loop-AllNames s [] a = a
loop-AllNames s (e ∷ es) a = loop-AllNames (normal_step true s e) es (step-AllNames s e a)

reverse_onto-append :
    (xs ys zs : List Bytes) → reverse_onto xs (ys ++ zs) ≡ reverse_onto xs ys ++ zs
reverse_onto-append [] ys zs = refl
reverse_onto-append (x ∷ xs) ys zs = reverse_onto-append xs (x ∷ ys) zs

reverse-AllNames : (xs ys : List Bytes) → AllNames xs → AllNames ys → AllNames (reverse_onto xs ys)
reverse-AllNames [] ys a b = b
reverse-AllNames (x ∷ xs) ys a b = reverse-AllNames xs (x ∷ ys) a.1 (a.0, b)

closing_cases : (s : List Bytes × Bool) → (closing s ≡ []) ⊎ (closing s ≡ [] ∷ [])
unfolding closing
closing_cases ([], due) = inl refl
closing_cases (x ∷ kept, due) = elim (Bool-cases (due && not (is_up x))) [
  | inl e ↦ inr (rw e refl)
  | inr e ↦ inl (rw e refl)
]

-- An absolute path, whatever its components are, normalizes to the root directory, names of entries,
-- and at most a trailing separator: no `.` and no `..` is left in it.
pub normal_absolute :
    (es : List Bytes)
    → (ns : List Bytes) × (end : List Bytes) × (lexically_normal (slash ∷ es) ≡ slash ∷ (ns ++ end))
      × AllNames ns
      × ((end ≡ []) ⊎ (end ≡ [] ∷ []))
unfolding lexically_normal bytes_eq
normal_absolute es =
    let s = normal_loop true ([], false) es in
    (
      reverse_onto s.0 [],
      closing s,
      ap (λ p. slash ∷ p) (reverse_onto-append s.0 [] (closing s)),
      reverse-AllNames s.0 [] (loop-AllNames ([], false) es tt) tt,
      closing_cases s,
    )
