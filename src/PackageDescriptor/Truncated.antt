-- ===== src/PackageDescriptor/Truncated.antt =====
-- A package that is cut short. Readers look at nothing behind what they consume, so no proper
-- prefix of a serialized descriptor is one.
use libdwarfs.Prelude.{
  ℕ, ◌<◌, ◌≤◌, ◌≡◌, refl, Bool, true, false, inl, inr, [], ◌∷◌, ◌++◌, length, take, drop, Bytes,
  arith, length-append, length-drop, take-append-drop, starts_with, append-nil, if◌then◌else◌, ap,
}
use libdwarfs.Result.{ok, err, Result-cases, err-ne-ok}
use libdwarfs.PackageDescriptor.Buffer.{
  Reader, Exception, pure, ◌>>=◌, check_left, read_from_buffer, read_u16, read_string,
  take-append_le, drop-append_le,
}
use libdwarfs.PackageDescriptor.{
  PackageDescriptor, serialize, read_cwd, check_signature, signature, read_descriptor, deserialize,
}
use libdwarfs.PackageDescriptor.Roundtrip.{InRange, kept_descriptor, Reads-descriptor}

-- What a reader makes of a buffer it makes of every longer one, and leaves the addition.
pub record IsLocal {ℓ} {A : Type ℓ} (m : Reader A) : Type ℓ where
  pub at : (b s : Bytes) (a : A) (r : Bytes) → m b ≡ ok (a, r) → m (b ++ s) ≡ ok (a, r ++ s)

IsLocal-bind {ℓ κ} :
    {A : Type ℓ} {B : Type κ} (m : Reader A) (f : A → Reader B)
    → IsLocal m
    → ((a : A) → IsLocal (f a))
    → IsLocal (m >>= f)
unfolding ◌>>=◌
IsLocal-bind m f hm hf = record {
  at = λ b s c r h. elim (Result-cases (m b)) [
    | inl (e, p) ↦ absurd (err-ne-ok (rw (p, ◌>>=◌) at h))
    | inr ((a, b'), p) ↦ rw (hm.at b s a b' p, ◌>>=◌) ((hf a).at b' s c r (rw (p, ◌>>=◌) at h))
  ];
}

IsLocal-pure {ℓ} : {A : Type ℓ} (a : A) → IsLocal (pure a)
IsLocal-pure a = record { at = λ b s a' r h. ground arith }

IsLocal-left : (n : ℕ) → IsLocal (check_left n)
unfolding check_left
IsLocal-left n = record { at = λ b s a' r h. ground (arith, length-append b s) }

IsLocal-buffer : (n : ℕ) → IsLocal (read_from_buffer n)
unfolding read_from_buffer
IsLocal-buffer n = record {
  at = λ b s a r h. ground (arith, length-append b s, take-append_le n b s, drop-append_le n b s);
}

IsLocal-if {ℓ} :
    {A : Type ℓ} (t : Bool) (m n : Reader A) → IsLocal m → IsLocal n → IsLocal (if t then m else n)
IsLocal-if true m n h k = h
IsLocal-if false m n h k = k

ruleset local_rules = (IsLocal-bind, IsLocal-pure, IsLocal-left, IsLocal-buffer, IsLocal-if)

IsLocal-u16 : IsLocal read_u16
unfolding read_u16
IsLocal-u16 = search local_rules

IsLocal-string : IsLocal read_string
unfolding read_string
IsLocal-string = search (local_rules, IsLocal-u16)

IsLocal-cwd : IsLocal read_cwd
unfolding read_cwd
IsLocal-cwd = search (local_rules, IsLocal-string)

starts_with-append_left : (p b s : Bytes) → starts_with p b ≡ true → starts_with p (b ++ s) ≡ true
unfolding starts_with
starts_with-append_left [] b s h = refl
starts_with-append_left (x ∷ p) [] s h = ground arith
starts_with-append_left (x ∷ p) (y ∷ b) s h = ground (arith, starts_with-append_left p b s)

IsLocal-signature : IsLocal check_signature
unfolding check_signature
IsLocal-signature = record {
  at = λ b s a r h. ground (
    arith,
    length-append b s,
    starts_with-append_left signature b s,
    drop-append_le (length signature) b s,
  );
}

pub IsLocal-descriptor : IsLocal read_descriptor
unfolding read_descriptor
IsLocal-descriptor =
    search (local_rules, IsLocal-signature, IsLocal-u16, IsLocal-string, IsLocal-cwd) depth 24

read_descriptor-prefix :
    (n : ℕ) (x : Bytes) (d d' : PackageDescriptor) (r : Bytes)
    → read_descriptor (take n x) ≡ ok (d, r)
    → read_descriptor x ≡ ok (d', [])
    → length x ≤ n
read_descriptor-prefix n x d d' r h k =
    omega (arith, length-drop n x, ap length left, length-append r (drop n x))
  where
    whole : read_descriptor x ≡ ok (d, r ++ drop n x)
    whole = rw (take-append-drop n x) at (IsLocal-descriptor.at (take n x) (drop n x) d r h)

    left : r ++ drop n x ≡ []
    left = cc (whole, k)

-- Every proper prefix of the serialized bytes of a descriptor with `uint16_t` versions is refused.
pub deserialize-take :
    (n : ℕ) (d : PackageDescriptor)
    → InRange d
    → n < length (serialize d)
    → (e : Exception) × (deserialize (take n (serialize d)) ≡ err e)
unfolding deserialize
deserialize-take n d h short = elim (Result-cases (read_descriptor (take n (serialize d)))) [
  | inl (e, p) ↦ (e, rw (p, deserialize))
  | inr ((d', r), p) ↦
      absurd
        (omega (arith, read_descriptor-prefix n (serialize d) d' (kept_descriptor d) r p whole))
]
  where
    whole : read_descriptor (serialize d) ≡ ok (kept_descriptor d, [])
    whole = rw append-nil at ((Reads-descriptor d h).at [])
