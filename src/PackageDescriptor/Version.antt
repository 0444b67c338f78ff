-- ===== src/PackageDescriptor/Version.antt =====
-- The lambda `parse_version` of the constructor from strings: `ss >> major >> dot >> minor >> dot >>
-- patch` on a std::stringstream, with the checks that follow. Formatted input of the standard
-- library skips white space, and a `uint16_t` is read by the rules of `strtoull` with a range test.
use libdwarfs.Prelude.{
  ℕ, ◌+◌, ◌-◌, ◌*◌, ◌%◌, ◌<◌, ◌≤◌, ◌≡◌, refl, Option, none, some, Bool, true, false, [], ◌∷◌, ◌++◌,
  Bytes, ltb, leb, ◌==◌, ◌&&◌, ◌||◌, if◌then◌else◌, arith,
}
use libdwarfs.Result.{Result, ok, err}
use libdwarfs.PackageDescriptor.Buffer.{Exception, invalid_argument}

abbrev pub is_space : ℕ → Bool
is_space c = c == b' ' || (leb 9 c && leb c 13)

abbrev pub is_digit : ℕ → Bool
is_digit c = leb b'0' c && leb c b'9'

unfoldable pub skip_ws : Bytes → Bytes
skip_ws [] = []
skip_ws (c ∷ cs) = if is_space c then skip_ws cs else c ∷ cs

-- The digits at the front as a number, on top of `acc`, and what follows them.
unfoldable pub digits : ℕ → Bytes → ℕ × Bytes
digits acc [] = (acc, [])
digits acc (c ∷ cs) =
    let rest = digits (acc * 10 + (c - b'0')) cs in if is_digit c then rest else (acc, c ∷ cs)

-- A number wants a digit, and fails where it is above the range of `uint16_t`. A minus sign negates
-- modulo 65536.
unfoldable pub unsigned : Bool → Bytes → Option (ℕ × Bytes)
unsigned negative [] = none
unsigned negative (c ∷ cs) =
    let (n, rest) = digits 0 (c ∷ cs) in
    if is_digit c
    then (if ltb n 65536 then some (if negative then (65536 - n) % 65536 else n, rest) else none)
    else none

unfoldable pub signed : Bytes → Option (ℕ × Bytes)
signed [] = none
signed (c ∷ cs) =
    if c == b'-'
    then unsigned true cs
    else if c == b'+'
    then unsigned false cs
    else unsigned false (c ∷ cs)

-- ss >> x of a `uint16_t` and of a `char`.
unfoldable pub extract_u16 : Bytes → Option (ℕ × Bytes)
extract_u16 s = signed (skip_ws s)

unfoldable pub extract_char : Bytes → Option (ℕ × Bytes)
extract_char s = elim (skip_ws s) [ [] ↦ none | c ∷ cs ↦ some (c, cs) ]

infixl 5 ◌>>=◌
abbrev ◌>>=◌ {ℓ κ} : {A : Type ℓ} {B : Type κ} → Option A → (A → Option B) → Option B
none >>= f = none
some a >>= f = f a

-- major, minor, patch, and the separator that was read last
unfoldable pub extract_version : Bytes → Option (ℕ × ℕ × ℕ × ℕ)
extract_version s = do
  (major, s₁) ← extract_u16 s
  (_, s₂) ← extract_char s₁
  (minor, s₃) ← extract_u16 s₂
  (dot, s₄) ← extract_char s₃
  (patch, _) ← extract_u16 s₄
  some (major, minor, patch, dot)

unfoldable pub parse_version : Bytes → Result Exception (ℕ × ℕ × ℕ)
parse_version version = elim (extract_version version) [
  | none ↦ err invalid_argument
  | some (major, minor, patch, dot) ↦
      if dot == b'.' then ok (major, minor, patch) else err invalid_argument
]

-- A numeral and its value.
abbrev pub AllDigits : Bytes → Type 0
AllDigits [] = Unit {0}
AllDigits (c ∷ cs) = (is_digit c ≡ true) × AllDigits cs

abbrev pub value : ℕ → Bytes → ℕ
value acc [] = acc
value acc (c ∷ cs) = value (acc * 10 + (c - b'0')) cs

-- What may follow a numeral.
abbrev pub Stops : Bytes → Type 0
Stops [] = Unit {0}
Stops (c ∷ cs) = is_digit c ≡ false

digits-append :
    (acc : ℕ) (n rest : Bytes)
    → AllDigits n
    → Stops rest
    → digits acc (n ++ rest) ≡ (value acc n, rest)
unfolding digits
digits-append acc [] [] h k = refl
digits-append acc [] (c ∷ cs) h k = rw k
digits-append acc (c ∷ cs) rest h k =
    rw (h.0, digits) (digits-append (acc * 10 + (c - b'0')) cs rest h.1 k)

digit_is_no_space :
    (c : ℕ)
    → is_digit c ≡ true
    → (is_space c ≡ false) × ((c == b'-') ≡ false) × ((c == b'+') ≡ false)
digit_is_no_space c h = ground arith

-- A decimal numeral for a `uint16_t`.
abbrev pub IsU16 : Bytes → Type 0
IsU16 [] = ⊥
IsU16 (c ∷ cs) = AllDigits (c ∷ cs) × (value 0 (c ∷ cs) < 65536)

extract_u16_lem :
    (n rest : Bytes) → IsU16 n → Stops rest → extract_u16 (n ++ rest) ≡ some (value 0 n, rest)
unfolding extract_u16 skip_ws signed unsigned
extract_u16_lem [] rest h k = absurd h
extract_u16_lem (c ∷ n) rest h k =
    ground (arith, digit_is_no_space c h.0.0, digits-append 0 (c ∷ n) rest h.0 k)

extract_char_lem :
    (c : ℕ) (rest : Bytes) → is_space c ≡ false → extract_char (c ∷ rest) ≡ some (c, rest)
unfolding extract_char skip_ws
extract_char_lem c rest h = rw (h, extract_char)

-- Three numerals give the three numbers when the second separator is a dot. The first may be any
-- character but white space and a digit: it is read and not compared.
pub parse_version_lem :
    (major minor patch : Bytes) (separator : ℕ)
    → IsU16 major
    → IsU16 minor
    → IsU16 patch
    → is_space separator ≡ false
    → is_digit separator ≡ false
    → parse_version (major ++ (separator ∷ (minor ++ (b'.' ∷ (patch ++ [])))))
      ≡ ok (value 0 major, value 0 minor, value 0 patch)
unfolding parse_version extract_version
parse_version_lem major minor patch separator h₁ h₂ h₃ space digit = ground (
  arith,
  extract_u16_lem major (separator ∷ (minor ++ (b'.' ∷ (patch ++ [])))) h₁ digit,
  extract_char_lem separator (minor ++ (b'.' ∷ (patch ++ []))) space,
  extract_u16_lem minor (b'.' ∷ (patch ++ [])) h₂ refl,
  extract_char_lem b'.' (patch ++ []) refl,
  extract_u16_lem patch [] h₃ tt,
)

-- A version whose first number is above the range of `uint16_t` is refused, whatever follows it.
pub parse_version_overflow :
    (major rest : Bytes)
    → AllDigits major
    → Stops rest
    → 65536 ≤ value 0 major
    → parse_version (major ++ rest) ≡ err invalid_argument
unfolding parse_version extract_version extract_u16 skip_ws signed unsigned
parse_version_overflow [] rest h k large = absurd (omega arith)
parse_version_overflow (c ∷ n) rest h k large =
    ground (arith, digit_is_no_space c h.0, digits-append 0 (c ∷ n) rest h k)
