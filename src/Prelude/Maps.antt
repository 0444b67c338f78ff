-- ===== src/Prelude/Maps.antt =====
-- `std::map` and `std::set` as the program uses them: a key stands at most once, and `emplace`
-- keeps what is there. The tables whose order is observed are in `MemfsTable`.
use Prim.Native.Nat.{ℕ}
use mathlib.Core.Path.{◌≡◌, refl}
use mathlib.Core.Logic.{◌↔◌}
use mathlib.Core.Bool.{Bool, true, false}
use mathlib.Core.Option.{Option, none, some}
use mathlib.Core.List.{List, [], ◌∷◌}
use native.Mathlib.Omega.{arith}
use libdwarfs.Prelude.Tests.{◌==◌, ==_iff, if◌then◌else◌}
use libdwarfs.Prelude.Strings.{Bytes, bytes_eq, bytes_eq_refl, bytes_eq_sound}
use libdwarfs.Prelude.Int.{ℤ, ◌==ℤ◌, ==ℤ_iff}

-- The keys' equality.
pub record Eq {ℓ} (K : Type ℓ) : Type ℓ where
  pub beq : K → K → Bool
  pub beq_iff : (a b : K) → (beq a b ≡ true) ↔ (a ≡ b)

instance abbrev pub nat_eq : Eq ℕ
nat_eq = record { beq = ◌==◌; beq_iff = ==_iff }

instance abbrev pub int_eq : Eq ℤ
int_eq = record { beq = ◌==ℤ◌; beq_iff = ==ℤ_iff }

instance abbrev pub bytes_key : Eq Bytes
bytes_key = record {
  beq = bytes_eq;
  beq_iff = λ a b. (bytes_eq_sound a b, λ e. rw e (bytes_eq_refl b));
}

abbrev pub Map {ℓ κ} : Type ℓ → Type κ → Type (ℓ ⊔ κ)
Map K V = List (K × V)

abbrev pub is_some {ℓ} : {A : Type ℓ} → Option A → Bool
is_some none = false
is_some (some a) = true

pub beq_refl {ℓ} : {K : Type ℓ} ⦃e : Eq K⦄ (k : K) → e.beq k k ≡ true
beq_refl ⦃e⦄ k = (e.beq_iff k k).1 refl

module _ {ℓ κ} {K : Type ℓ} {V : Type κ} ⦃e : Eq K⦄ where
  -- find(k), with `none` for end()
  unfoldable pub find : K → Map K V → Option V
  find k [] = none
  find k ((j, v) ∷ m) = if e.beq j k then some v else find k m

  -- m[k] = v
  unfoldable pub assign : K → V → Map K V → Map K V
  assign k v [] = (k, v) ∷ []
  assign k v ((j, w) ∷ m) = if e.beq j k then (k, v) ∷ m else (j, w) ∷ assign k v m

  -- erase(k)
  unfoldable pub erase : K → Map K V → Map K V
  erase k [] = []
  erase k ((j, w) ∷ m) = let rest = erase k m in if e.beq j k then rest else (j, w) ∷ rest

  -- emplace(k, v): nothing is written where the key is there already.
  unfoldable pub emplace : K → V → Map K V → Map K V × Bool
  emplace k v m = elim (find k m) [ none ↦ (assign k v m, true) | some w ↦ (m, false) ]

  module _ (k j : K) where
    pub find-assign :
        (v : V) (m : Map K V) → find j (assign k v m) ≡ (if e.beq k j then some v else find j m)
    unfolding find assign
    find-assign v [] = refl
    find-assign v ((i, w) ∷ m) =
        ground (arith, e.beq_iff k j, e.beq_iff i k, e.beq_iff i j, find-assign v m)

    pub find-erase : (m : Map K V) → find j (erase k m) ≡ (if e.beq k j then none else find j m)
    unfolding find erase
    find-erase [] = ground arith
    find-erase ((i, w) ∷ m) =
        ground (arith, e.beq_iff k j, e.beq_iff i k, e.beq_iff i j, find-erase m)

    pub find-emplace :
        (v : V) (m : Map K V)
        → find j (emplace k v m).0
          ≡ (if e.beq k j then elim (find j m) [ none ↦ some v | some w ↦ some w ] else find j m)
    unfolding emplace
    find-emplace v m = ground (arith, e.beq_iff k j, find-assign v m)

  pub find-assign_self : (k : K) (v : V) (m : Map K V) → find k (assign k v m) ≡ some v
  find-assign_self k v m = ground (arith, find-assign k k v m, beq_refl k)

  pub find-erase_self : (k : K) (m : Map K V) → find k (erase k m) ≡ none
  find-erase_self k m = ground (arith, find-erase k k m, beq_refl k)
