-- ===== src/Fd/Vectors.antt =====
-- `readv` against the contents of the file.
use libdwarfs.Prelude.{
  ℕ, ℤ, pos, ◌+◌, ◌^◌, ◌<◌, ◌≤◌, ◌≡◌, refl, ap, Option, none, some, List, [], ◌∷◌, ◌++◌, Bytes,
  take, length, length-append, arith, ltb, inl, inr, Bool-cases,
}
use libdwarfs.Prelude.Maps.{find, int_eq, find-assign_self}
use libdwarfs.Errno.{Errno, returns, later}
use libdwarfs.Root.{Root}
use libdwarfs.Fd.State.{Fd, FdTable}
use libdwarfs.Fd.Seek.{off_max}
use libdwarfs.Fd.Read.{readv, readv_loop, advance, Vector}
use libdwarfs.Fd.Contents.{chunk, length-chunk, chunk-append, HasContent, moved}

abbrev pub sum : List ℕ → ℕ
sum [] = 0
sum (n ∷ ns) = n + sum ns

abbrev pub joined : List Bytes → Bytes
joined [] = []
joined (c ∷ cs) = c ++ joined cs

-- Buffers that are not empty and below 2^31 bytes.
abbrev pub AllFilled : List ℕ → Type 0
AllFilled [] = Unit {0}
AllFilled (n ∷ ns) = (0 < n) × (n < 2 ^ 31) × AllFilled ns

advance_lem : (fd : Fd) (k : ℕ) → fd.position + k ≤ off_max → advance fd (pos k) ≡ moved fd k
advance_lem fd k h = ground arith

-- What the loop makes of buffers of `total` bytes in all.
pub record Fills (content : Bytes) (fd : Fd) (r total : ℕ) (v : Vector) : Type 0 where
  pub fd_moves : v.fd ≡ moved fd (length (chunk content fd.position total))
  pub counts : v.ret ≡ pos (r + length (chunk content fd.position total))
  pub bytes : joined v.chunks ≡ chunk content fd.position total

nil_of_length : (xs : Bytes) → length xs ≡ 0 → xs ≡ []
nil_of_length [] h = refl
nil_of_length (x ∷ xs) h = absurd (omega arith)

module _ (root : Root) (content : Bytes) where
  loop_stops :
      (fd : Fd) (n r total : ℕ) (iov : List ℕ) (e : Option Errno)
      → HasContent root fd.st.st_ino content
      → 0 < n
      → n < 2 ^ 31
      → fd.position ≤ length content
      → length (chunk content fd.position n) ≡ 0
      → Fills content fd r (n + total) (readv_loop root (n ∷ iov) fd (pos r) e)
  unfolding readv_loop
  loop_stops fd n r total iov e h positive small low none_left =
      let found = h.reads n fd.position small (omega (arith, h.fits)) in
      let short = length-chunk content fd.position n in
      let all = length-chunk content fd.position (n + total) in
      let empty : chunk content fd.position (n + total) ≡ [] = nil_of_length _ (omega arith) in
      record { fd_moves = ground arith; counts = ground arith; bytes = ground arith }

  -- One round in which bytes are left.
  loop_step :
      (fd : Fd) (n r k : ℕ) (c : Bytes) (iov : List ℕ) (e : Option Errno)
      → root.inode_read fd.st.st_ino n (pos fd.position) ≡ returns (pos k, c)
      → 0 < k
      → fd.position + k ≤ off_max
      → r ≤ fd.position
      → let v = readv_loop root iov (moved fd k) (pos (r + k)) (later e none) in
        readv_loop root (n ∷ iov) fd (pos r) e ≡ record v { chunks = c ∷ v.chunks }
  unfolding readv_loop
  loop_step fd n r k c iov e found some_left fits acc = ground (arith, advance_lem fd k fits)

  loop_goes_on :
      (fd : Fd) (n r total : ℕ) (iov : List ℕ) (e : Option Errno)
      → HasContent root fd.st.st_ino content
      → n < 2 ^ 31
      → fd.position ≤ length content
      → r ≤ fd.position
      → 0 < length (chunk content fd.position n)
      → ((e' : Option Errno)
          → let k = length (chunk content fd.position n) in
            Fills content
              (moved fd k)
              (r + k)
              total
              (readv_loop root iov (moved fd k) (pos (r + k)) e'))
      → Fills content fd r (n + total) (readv_loop root (n ∷ iov) fd (pos r) e)
  loop_goes_on fd n r total iov e h small low acc some_left rest =
      let c = chunk content fd.position n in
      let found = h.reads n fd.position small (omega (arith, h.fits)) in
      let fits : fd.position + length c ≤ off_max =
        omega (arith, h.fits, length-chunk content fd.position n) in
      let step = loop_step fd n r (length c) c iov e found some_left fits acc in
      let glued = chunk-append content fd.position n total in
      let more = rest (later e none) in
      record {
        fd_moves = ground (
          arith,
          step,
          glued,
          more.fd_moves,
          length-append c (chunk content (fd.position + length c) total),
        );
        counts = ground (
          arith,
          step,
          glued,
          more.counts,
          length-append c (chunk content (fd.position + length c) total),
        );
        bytes = ground (arith, step, glued, more.bytes);
      }

  readv_loop_lem :
      (iov : List ℕ) (fd : Fd) (r : ℕ) (e : Option Errno)
      → HasContent root fd.st.st_ino content
      → AllFilled iov
      → fd.position ≤ length content
      → r ≤ fd.position
      → Fills content fd r (sum iov) (readv_loop root iov fd (pos r) e)
  readv_loop_lem [] fd r e h filled low acc =
      unfold readv_loop in record { fd_moves = ground arith; counts = ground arith; bytes = refl }
  readv_loop_lem (n ∷ iov) fd r e h filled low acc =
      elim (Bool-cases (ltb 0 (length (chunk content fd.position n)))) [
        | inl more ↦ loop_goes_on fd n r (sum iov) iov e h filled.1 low acc (ground arith) λ e'.
            readv_loop_lem iov (moved fd (length (chunk content fd.position n)))
              (r + length (chunk content fd.position n)) e' h filled.2
              (omega (arith, length-chunk content fd.position n)) (omega arith)
        | inr none_left ↦ loop_stops fd n r (sum iov) iov e h filled.0 filled.1 low (ground arith)
      ]

  -- The same in front of an empty buffer.
  readv_loop_empty :
      (iov behind : List ℕ) (fd : Fd) (r : ℕ) (e : Option Errno)
      → HasContent root fd.st.st_ino content
      → AllFilled iov
      → fd.position ≤ length content
      → r ≤ fd.position
      → Fills content fd r (sum iov) (readv_loop root (iov ++ 0 ∷ behind) fd (pos r) e)
  readv_loop_empty [] behind fd r e h filled low acc =
      let found = h.reads 0 fd.position (omega arith) (omega (arith, h.fits)) in
      unfold readv_loop in
      record {
        fd_moves = ground (arith, found);
        counts = ground (arith, found);
        bytes = ground (arith, found);
      }
  readv_loop_empty (n ∷ iov) behind fd r e h filled low acc =
      let k = length (chunk content fd.position n) in
      elim (Bool-cases (ltb 0 k)) [
        | inl more ↦
            loop_goes_on fd n r (sum iov) (iov ++ 0 ∷ behind) e h filled.1 low acc (ground arith)
              λ e'.
                readv_loop_empty iov behind (moved fd k) (r + k) e' h filled.2
                  (omega (arith, length-chunk content fd.position n)) (omega arith)
        | inr none_left ↦
            loop_stops fd n r (sum iov) (iov ++ 0 ∷ behind) e h filled.0 filled.1 low (ground arith)
      ]

take-length : (xs : List ℕ) → take (length xs) xs ≡ xs
take-length [] = refl
take-length (x ∷ xs) = ap (◌∷◌ x) (take-length xs)

-- For a vector of buffers that are not empty and below 2^31 bytes, over a file smaller than the
-- largest offset: the buffers hold, one after the other, the bytes from the position on, as many as
-- the buffers take or the file has. The result is their number, and the position ends behind them.
pub readv_lem :
    (root : Root) (content : Bytes) (t : FdTable) (vfd : ℤ) (fd : Fd) (iov : List ℕ)
    → HasContent root fd.st.st_ino content
    → find vfd t ≡ some fd
    → AllFilled iov
    → fd.position ≤ length content
    → let r = readv root t vfd iov (pos (length iov)) in
      let whole = chunk content fd.position (sum iov) in
      (r.1.value.0 ≡ pos (length whole))
      × (joined r.1.value.1 ≡ whole)
      × (find vfd r.0 ≡ some (moved fd (length whole)))
unfolding readv
readv_lem root content t vfd fd iov h e filled low =
    let done = readv_loop_lem root content iov fd 0 none h filled low (omega arith) in
    let v = readv_loop root iov fd (pos 0) none in
    (
      ground (arith, take-length iov, done.counts),
      ground (arith, take-length iov, done.bytes),
      ground (arith, take-length iov, done.fd_moves, find-assign_self vfd v.fd t),
    )

-- An empty buffer ends the transfer, wherever it stands: behind buffers that are not empty and below 2^31
-- bytes, the result, the bytes and the position are those of a vector that ends in front of it,
-- whatever stands behind it and however much of the file is left.
pub readv_empty_buffer :
    (root : Root) (content : Bytes) (t : FdTable) (vfd : ℤ) (fd : Fd) (iov behind : List ℕ)
    → HasContent root fd.st.st_ino content
    → find vfd t ≡ some fd
    → AllFilled iov
    → fd.position ≤ length content
    → let r = readv root t vfd (iov ++ 0 ∷ behind) (pos (length (iov ++ 0 ∷ behind))) in
      let whole = chunk content fd.position (sum iov) in
      (r.1.value.0 ≡ pos (length whole))
      × (joined r.1.value.1 ≡ whole)
      × (find vfd r.0 ≡ some (moved fd (length whole)))
unfolding readv
readv_empty_buffer root content t vfd fd iov behind h e filled low =
    let all = iov ++ 0 ∷ behind in
    let done = readv_loop_empty root content iov behind fd 0 none h filled low (omega arith) in
    let v = readv_loop root all fd (pos 0) none in
    (
      ground (arith, take-length all, done.counts),
      ground (arith, take-length all, done.bytes),
      ground (arith, take-length all, done.fd_moves, find-assign_self vfd v.fd t),
    )
