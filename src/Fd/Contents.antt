-- ===== src/Fd/Contents.antt =====
-- Reading through a descriptor against the contents of the file.
use libdwarfs.Prelude.{
  ℕ, ℤ, pos, zero, suc, ◌+◌, ◌-◌, ◌^◌, ◌<◌, ◌≤◌, ◌≡◌, refl, ap, some, [], ◌∷◌, ◌++◌, Bytes, take,
  drop, length, length-take, length-drop, length-append, min, arith,
}
use libdwarfs.Prelude.Maps.{find, int_eq, find-assign_self}
use libdwarfs.Errno.{returns}
use libdwarfs.Root.{Root}
use libdwarfs.Fd.State.{Fd, FdTable}
use libdwarfs.Fd.Seek.{off_max}
use libdwarfs.Fd.Read.{read, pread}

-- What a read of `n` bytes at `off` finds.
abbrev pub chunk : Bytes → ℕ → ℕ → Bytes
chunk content off n = take n (drop off content)

-- The inode holds a file: a read of less than 2^31 bytes gives what is there, up to the end.
pub record HasContent (root : Root) (ino : ℕ) (content : Bytes) : Type 0 where
  pub fits : length content ≤ off_max
  pub reads :
      (n off : ℕ)
      → n < 2 ^ 31
      → off ≤ off_max
      → root.inode_read ino n (pos off)
        ≡ returns (pos (length (chunk content off n)), chunk content off n)

-- The same descriptor `n` bytes further.
abbrev pub moved : Fd → ℕ → Fd
moved fd n = record fd { position = fd.position + n }

pub length-chunk :
    (content : Bytes) (off n : ℕ) → length (chunk content off n) ≡ min n (length content - off)
length-chunk content off n =
    omega (arith, length-take n (drop off content), length-drop off content)

take-nil : (k : ℕ) → take {A = ℕ} k [] ≡ []
take-nil zero = refl
take-nil (suc k) = refl

drop-nil : (k : ℕ) → drop {A = ℕ} k [] ≡ []
drop-nil zero = refl
drop-nil (suc k) = refl

pub drop-drop : (m n : ℕ) (xs : Bytes) → drop n (drop m xs) ≡ drop (m + n) xs
drop-drop zero n xs = ap (λ k. drop k xs) (omega arith)
drop-drop (suc m) n [] = rw (drop-nil n, drop-nil (suc m + n))
drop-drop (suc m) n (x ∷ xs) =
    let e : suc m + n ≡ suc (m + n) = omega arith in rw e (drop-drop m n xs)

take-append-take :
    (n m : ℕ) (xs : Bytes) → take n xs ++ take m (drop (length (take n xs)) xs) ≡ take (n + m) xs
take-append-take zero m xs = ap (λ k. take k xs) (omega arith)
take-append-take (suc n) m [] = rw (take-nil m, take-nil (suc n + m))
take-append-take (suc n) m (x ∷ xs) =
    let e : suc n + m ≡ suc (n + m) = omega arith in rw e (ap (◌∷◌ x) (take-append-take n m xs))

pub chunk-append :
    (content : Bytes) (off n m : ℕ)
    → chunk content off n ++ chunk content (off + length (chunk content off n)) m
      ≡ chunk content off (n + m)
chunk-append content off n m =
    rw (← drop-drop off (length (chunk content off n)) content)
      (take-append-take n m (drop off content))

-- A read gives the bytes from the position on and moves the position behind them. Nothing else of
-- the descriptor changes.
pub read_chunk :
    (root : Root) (content : Bytes) (t : FdTable) (vfd : ℤ) (fd : Fd) (n : ℕ)
    → HasContent root fd.st.st_ino content
    → find vfd t ≡ some fd
    → n < 2 ^ 31
    → fd.position ≤ off_max
    → let c = chunk content fd.position n in
      ((read root t vfd n).1 ≡ returns (pos (length c), c))
      × (find vfd (read root t vfd n).0 ≡ some (moved fd (length c)))
unfolding read
read_chunk root content t vfd fd n h e small low = ground (
  arith,
  h.reads n fd.position small low,
  h.fits,
  length-chunk content fd.position n,
  find-assign_self vfd (moved fd (length (chunk content fd.position n))) t,
)

-- Two reads in a row give, one after the other, the bytes that one `pread` of both sizes gives at the
-- first position, and the position ends behind them. The file is smaller than the largest offset, and
-- the two sizes together are below 2^31.
pub read_read :
    (root : Root) (content : Bytes) (t : FdTable) (vfd : ℤ) (fd : Fd) (n m : ℕ)
    → HasContent root fd.st.st_ino content
    → find vfd t ≡ some fd
    → n + m < 2 ^ 31
    → fd.position ≤ length content
    → let first = read root t vfd n in
      let second = read root first.0 vfd m in
      let whole = chunk content fd.position (n + m) in
      (pread root t vfd (n + m) (pos fd.position) ≡ returns (pos (length whole), whole))
      × (first.1.value.1 ++ second.1.value.1 ≡ whole)
      × (find vfd second.0 ≡ some (moved fd (length whole)))
unfolding pread
read_read root content t vfd fd n m h e small low =
    let c₁ = chunk content fd.position n in
    let c₂ = chunk content (fd.position + length c₁) m in
    let below : n < 2 ^ 31 = omega arith in
    let one = read_chunk root content t vfd fd n h e below (omega (arith, h.fits)) in
    let two =
      read_chunk root content (read root t vfd n).0 vfd (moved fd (length c₁)) m h one.1
        (omega arith) (omega (arith, h.fits, length-chunk content fd.position n)) in
    let both : c₁ ++ c₂ ≡ chunk content fd.position (n + m) =
      chunk-append content fd.position n m in
    (
      rw (e, pread) (h.reads (n + m) fd.position small (omega (arith, h.fits))),
      ground (arith, one.0, two.0, both),
      ground (arith, two.1, both, length-append c₁ c₂),
    )
