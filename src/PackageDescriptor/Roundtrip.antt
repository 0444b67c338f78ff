-- ===== src/PackageDescriptor/Roundtrip.antt =====
-- The binary form of a descriptor and back.
use libdwarfs.Prelude.{
  ℕ, ◌%◌, ◌<◌, ◌≤◌, ◌≡◌, refl, subst, Option, none, some, List, [], ◌∷◌, ◌++◌, length, take, drop,
  Bytes, arith, ltb, length-append, false, append_assoc, length-take, starts_with, bytes_eq,
}
use libdwarfs.Result.{ok}
use libdwarfs.PackageDescriptor.Buffer.{
  Reader, pure, ◌>>=◌, ◌>>◌, check_left, read_from_buffer, read_u16, read_string,
}
use libdwarfs.PackageDescriptor.{
  PackageDescriptor, u16_bytes, string_bytes, cwd_bytes, serialize, read_cwd, check_signature,
  signature, read_descriptor, deserialize,
}

-- What a 16-bit length keeps of a string.
abbrev pub kept : Bytes → Bytes
kept s = take (length s % 65536) s

abbrev pub kept_cwd : Option Bytes → Option Bytes
kept_cwd none = none
kept_cwd (some s) = some (kept s)

take-append {ℓ} : {A : Type ℓ} (xs ys : List A) → take (length xs) (xs ++ ys) ≡ xs
take-append [] ys = refl
take-append (x ∷ xs) ys = ground (arith, take-append xs ys)

drop-append {ℓ} : {A : Type ℓ} (xs ys : List A) → drop (length xs) (xs ++ ys) ≡ ys
drop-append [] ys = refl
drop-append (x ∷ xs) ys = drop-append xs ys

check_left_lem : (n : ℕ) (b : Bytes) → n ≤ length b → check_left n b ≡ ok (tt, b)
unfolding check_left
check_left_lem n b h = let e : ltb (length b) n ≡ false = ground arith in rw e

-- From a buffer that begins with `x` the reader takes `x` and gives `a`.
pub record Reads {ℓ} {A : Type ℓ} (m : Reader A) (x : Bytes) (a : A) : Type ℓ where
  pub at : (rest : Bytes) → m (x ++ rest) ≡ ok (a, rest)

Reads-bind {ℓ κ} :
    {A : Type ℓ} {B : Type κ} {m : Reader A} (f : A → Reader B) {x y : Bytes} {a : A} {b : B}
    → Reads m x a
    → Reads (f a) y b
    → Reads (m >>= f) (x ++ y) b
unfolding ◌>>=◌
Reads-bind f {x = x} {y = y} h k = record {
  at = λ rest. rw (append_assoc x y rest) (rw (h.at (y ++ rest), ◌>>=◌) (k.at rest));
}

Reads-map {ℓ κ} :
    {A : Type ℓ} {B : Type κ} {m : Reader A} (f : A → B) {x : Bytes} {a : A}
    → Reads m x a
    → Reads (m >>= λ v. pure (f v)) x (f a)
unfolding ◌>>=◌
Reads-map f h = record { at = λ rest. rw (h.at rest, ◌>>=◌) }

left_fits : (xs rest : Bytes) → ltb (length (xs ++ rest)) (length xs) ≡ false
left_fits xs rest = ground (arith, length-append xs rest)

Reads-buffer : (xs : Bytes) → Reads (read_from_buffer (length xs)) xs xs
unfolding read_from_buffer
Reads-buffer xs = record { at = λ rest. rw (left_fits xs rest) (rw (take-append, drop-append)) }

Reads-u16 : (n : ℕ) → n < 65536 → Reads read_u16 (u16_bytes n) n
unfolding read_u16 ◌>>=◌
Reads-u16 n h = record {
  at = λ rest. rw ((Reads-buffer (u16_bytes n)).at rest, ◌>>=◌) (ground arith);
}

length-kept : (s : Bytes) → length (kept s) ≡ length s % 65536
length-kept s = omega (arith, length-take (length s % 65536) s)

Reads-pure {ℓ} : {A : Type ℓ} (a : A) → Reads (pure a) [] a
Reads-pure a = record { at = λ rest. refl }

Reads-contents : (xs : Bytes) → Reads (check_left (length xs) >> read_from_buffer (length xs)) xs xs
unfolding ◌>>=◌
Reads-contents xs = record {
  at = λ rest.
      rw (check_left_lem (length xs) (xs ++ rest) (omega (arith, length-append xs rest)), ◌>>=◌)
        ((Reads-buffer xs).at rest);
}

Reads-string : (s : Bytes) → Reads read_string (string_bytes s) (kept s)
unfolding read_string string_bytes
Reads-string s = Reads-bind _ (Reads-u16 (length s % 65536) (omega arith)) (
    subst (λ n. Reads (check_left n >> read_from_buffer n) (kept s) (kept s)) (length-kept s)
      (Reads-contents (kept s)))

Reads-cwd : (c : Option Bytes) → Reads read_cwd (cwd_bytes c) (kept_cwd c)
unfolding read_cwd cwd_bytes bytes_eq
Reads-cwd none = Reads-bind _ (Reads-buffer (0 ∷ [])) (Reads-pure none)
Reads-cwd (some s) = Reads-bind _ (Reads-buffer (1 ∷ [])) (Reads-map some (Reads-string s))

Reads-signature : Reads check_signature signature tt
unfolding check_signature starts_with
Reads-signature = record { at = λ rest. rw (left_fits signature rest) }

-- The version fields are `uint16_t` values.
pub record InRange (d : PackageDescriptor) : Type 0 where
  pub ruby_major : d.ruby_version_major < 65536
  pub ruby_minor : d.ruby_version_minor < 65536
  pub ruby_patch : d.ruby_version_patch < 65536
  pub tebako_major : d.tebako_version_major < 65536
  pub tebako_minor : d.tebako_version_minor < 65536
  pub tebako_patch : d.tebako_version_patch < 65536

-- What the binary form keeps of a descriptor.
abbrev pub kept_descriptor : PackageDescriptor → PackageDescriptor
kept_descriptor d = record d {
  mount_point = kept d.mount_point;
  entry_point = kept d.entry_point;
  cwd = kept_cwd d.cwd;
}

pub Reads-descriptor :
    (d : PackageDescriptor) → InRange d → Reads read_descriptor (serialize d) (kept_descriptor d)
unfolding read_descriptor serialize
Reads-descriptor d h = Reads-bind _ Reads-signature (
    Reads-bind _ (Reads-u16 _ h.ruby_major) (
      Reads-bind _ (Reads-u16 _ h.ruby_minor) (
        Reads-bind _ (Reads-u16 _ h.ruby_patch) (
          Reads-bind _ (Reads-u16 _ h.tebako_major) (
            Reads-bind _ (Reads-u16 _ h.tebako_minor) (
              Reads-bind _ (Reads-u16 _ h.tebako_patch) (
                Reads-bind _ (Reads-string d.mount_point)
                  (Reads-bind _ (Reads-string d.entry_point) (Reads-map _ (Reads-cwd d.cwd))))))))))

-- For a descriptor with `uint16_t` versions, whatever follows the serialized bytes, deserializing
-- them gives the descriptor back, each string cut to its size modulo 65536.
pub deserialize-serialize :
    (d : PackageDescriptor) (rest : Bytes)
    → InRange d
    → deserialize (serialize d ++ rest) ≡ ok (kept_descriptor d)
unfolding deserialize
deserialize-serialize d rest h = rw ((Reads-descriptor d h).at rest, deserialize)
