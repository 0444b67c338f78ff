-- ===== src/Paths/Ordinary.antt =====
-- Paths of names other than "." and "..", which std::filesystem::path::lexically_normal leaves as they
-- are.
use libdwarfs.Prelude.{
  ◌≡◌, refl, ◌∙◌, ap, Bool, false, List, [], ◌∷◌, ◌++◌, Bytes, bytes_eq, ascii, append-nil,
}
use libdwarfs.Paths.{
  slash, is_empty, is_up, normal_step, normal_loop, reverse_onto, closing, lexically_normal,
}
use libdwarfs.Paths.Append.{AllPlain}

-- A name that is not empty, and none of "/", "." and "..".
pub record IsEntry (e : Bytes) : Type 0 where
  pub filled : is_empty e ≡ false
  pub inner : bytes_eq e slash ≡ false
  pub no_dot : bytes_eq e (ascii ".") ≡ false
  pub no_up : is_up e ≡ false

abbrev pub AllEntries : List Bytes → Type 0
AllEntries [] = Unit {0}
AllEntries (e ∷ es) = IsEntry e × AllEntries es

pub AllEntries-AllPlain : (es : List Bytes) → AllEntries es → AllPlain es
AllEntries-AllPlain [] a = tt
AllEntries-AllPlain (e ∷ es) a = (a.0.filled, a.0.inner, AllEntries-AllPlain es a.1)

pub append-AllEntries : (xs ys : List Bytes) → AllEntries xs → AllEntries ys → AllEntries (xs ++ ys)
append-AllEntries [] ys a b = b
append-AllEntries (x ∷ xs) ys a b = (a.0, append-AllEntries xs ys a.1 b)

normal_loop-entries :
    (absolute : Bool) (kept es : List Bytes)
    → AllEntries es
    → normal_loop absolute (kept, false) es ≡ (reverse_onto es kept, false)
unfolding normal_loop normal_step
normal_loop-entries absolute kept [] a = refl
normal_loop-entries absolute kept (e ∷ es) a =
    rw (normal_loop, normal_step, a.0.filled, a.0.no_dot, a.0.no_up)
      (normal_loop-entries absolute (e ∷ kept) es a.1)

reverse_onto-twice :
    (es kept ys : List Bytes)
    → reverse_onto (reverse_onto es kept) ys ≡ reverse_onto kept (es ++ ys)
reverse_onto-twice [] kept ys = refl
reverse_onto-twice (e ∷ es) kept ys = reverse_onto-twice es (e ∷ kept) ys

closing-done : (kept : List Bytes) → closing (kept, false) ≡ []
unfolding closing
closing-done [] = refl
closing-done (x ∷ kept) = refl

pub lexically_normal-entries : (es : List Bytes) → AllEntries es → lexically_normal es ≡ es
unfolding lexically_normal
lexically_normal-entries [] a = refl
lexically_normal-entries (e ∷ es) a =
    let kept : List Bytes = reverse_onto (e ∷ es) [] in
    let back : reverse_onto kept (closing (kept, false)) ≡ e ∷ es =
      ap (reverse_onto kept) (closing-done kept)
      ∙ reverse_onto-twice (e ∷ es) [] []
      ∙ append-nil (e ∷ es) in
    rw (lexically_normal, a.0.inner, normal_loop-entries false [] (e ∷ es) a, back) refl
