-- ===== src/PackageDescriptor/Buffer.antt =====
-- The lambda `read_from_buffer` of the deserializing constructor, and sequencing of such reads.
-- The state is what is left of the buffer behind `offset`.
use libdwarfs.Prelude.{
  ℕ, zero, suc, ◌+◌, ◌*◌, ◌≤◌, ◌≡◌, refl, List, [], ◌∷◌, ◌++◌, length, take, drop, ltb,
  if◌then◌else◌, Bytes, arith,
}
use libdwarfs.Result.{Result, ok, err}

pub data Exception : Type 0 where
  invalid_argument out_of_range : Exception

abbrev pub Reader {ℓ} : Type ℓ → Type ℓ
Reader A = Bytes → Result Exception (A × Bytes)

abbrev pub pure {ℓ} : {A : Type ℓ} → A → Reader A
pure a b = ok (a, b)

abbrev pub throw {ℓ} : {A : Type ℓ} → Exception → Reader A
throw e b = err e

infixl 5 ◌>>=◌ ◌>>◌
unfoldable pub ◌>>=◌ {ℓ κ} : {A : Type ℓ} {B : Type κ} → Reader A → (A → Reader B) → Reader B
◌>>=◌ m f b = elim (m b) [ ok (a, b') ↦ f a b' | err e ↦ err e ]

abbrev pub ◌>>◌ {ℓ κ} : {A : Type ℓ} {B : Type κ} → Reader A → Reader B → Reader B
m >> k = m >>= λ _. k

-- if (offset + size > buffer.size()) throw std::out_of_range(...)
unfoldable pub check_left : ℕ → Reader (Unit {0})
check_left size b = if ltb (length b) size then err out_of_range else ok (tt, b)

-- The same check, then std::memcpy and offset += size.
unfoldable pub read_from_buffer : ℕ → Reader Bytes
read_from_buffer size b =
    if ltb (length b) size then err out_of_range else ok (take size b, drop size b)

-- A uint16_t that was copied from two bytes.
abbrev pub of_le : Bytes → ℕ
of_le (lo ∷ hi ∷ _) = lo + 256 * hi
of_le _ = 0

unfoldable pub read_u16 : Reader ℕ
read_u16 = do b ← read_from_buffer 2; pure (of_le b)

-- A length in two bytes, the check that names the field, and the contents.
unfoldable pub read_string : Reader Bytes
read_string = do size ← read_u16; check_left size; read_from_buffer size

pub take-append_le {ℓ} :
    {A : Type ℓ} (n : ℕ) (xs ys : List A) → n ≤ length xs → take n (xs ++ ys) ≡ take n xs
take-append_le zero xs ys h = refl
take-append_le (suc n) [] ys h = elim h [ ]
take-append_le (suc n) (x ∷ xs) ys h = ground (arith, take-append_le n xs ys)

pub drop-append_le {ℓ} :
    {A : Type ℓ} (n : ℕ) (xs ys : List A) → n ≤ length xs → drop n (xs ++ ys) ≡ drop n xs ++ ys
drop-append_le zero xs ys h = refl
drop-append_le (suc n) [] ys h = elim h [ ]
drop-append_le (suc n) (x ∷ xs) ys h = drop-append_le n xs ys (omega arith)
