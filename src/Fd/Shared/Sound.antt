-- ===== src/Fd/Shared/Sound.antt =====
-- What every interleaving of reads on one descriptor keeps, and a thread that is not disturbed.
use libdwarfs.Prelude.{
  ℕ, ℤ, pos, zero, suc, ◌+◌, ◌^◌, ◌<◌, ◌≤◌, ◌≡◌, refl, ap, ap, sym, subst, ltb_ℤ, int_of, some,
  List, [], ◌∷◌, Bytes, length, arith, Bool-cases, inl, inr,
}
use libdwarfs.Prelude.Maps.{find, int_eq, find-assign_self}
use libdwarfs.Errno.{Out, returns}
use libdwarfs.Root.{Root}
use libdwarfs.Fd.State.{Fd, FdTable}
use libdwarfs.Fd.Seek.{off_max, to_off}
use libdwarfs.Fd.Read.{read, advance}
use libdwarfs.Fd.Contents.{HasContent, chunk, length-chunk}
use libdwarfs.Fd.Shared.{Reader, waiting, read_at, adding, returned, Pool, turn, turn_of, run}

-- A thread that takes its three turns with no other in between does what `read` does.
pub run_alone :
    (root : Root) (t : FdTable) (vfd : ℤ) (fd : Fd) (nbyte : ℕ)
    → find vfd t ≡ some fd
    → let r = read root t vfd nbyte in
      let s = run root fd.st.st_ino (0 ∷ 0 ∷ 0 ∷ []) (fd.position, waiting nbyte ∷ []) in
      (s.1 ≡ returned nbyte r.1 ∷ []) × (find vfd r.0 ≡ some (record fd { position = s.0 }))
unfolding run turn_of turn read
run_alone root t vfd fd nbyte f =
    let r = root.inode_read fd.st.st_ino nbyte (to_off fd.position) in
    let ret = int_of r.value.0 in
    let stored = find-assign_self vfd (advance fd ret) t in
    elim (Bool-cases (ltb_ℤ (pos 0) ret)) [
      | inl more ↦ (rw (read, f) (ground arith), ground (arith, stored))
      | inr none_left ↦ (rw (read, f) (ground arith), ground arith)
    ]

pub turn-adding :
    (root : Root) (ino position n seen : ℕ) (c : Bytes)
    → seen + length c < 2 ^ 64
    → turn root ino position (adding n (returns (pos (length c), c)) seen)
      ≡ (seen + length c, returned n (returns (pos (length c), c)))
unfolding turn
turn-adding root ino position n seen c w = ground arith

-- What a thread may still add to the position.
abbrev pub due : Reader → ℕ
due (waiting n) = n
due (read_at n out) = length out.value.1
due (adding n out seen) = length out.value.1
due (returned n out) = 0

abbrev pub due_all : List Reader → ℕ
due_all [] = 0
due_all (r ∷ rs) = due r + due_all rs

module _ (content : Bytes) (base limit : ℕ) where
  -- The answer is what the file has at some place from the base to the limit.
  abbrev pub IsChunk : ℕ → Out (ℤ × Bytes) → Type 0
  IsChunk n out =
      (off : ℕ) × (base ≤ off)
      × (off ≤ limit)
      × (out ≡ returns (pos (length (chunk content off n)), chunk content off n))

  -- `rest` is what all threads together may still add.
  abbrev pub IsSoundReader : ℕ → Reader → Type 0
  IsSoundReader rest (waiting n) = n < 2 ^ 31
  IsSoundReader rest (read_at n out) = IsChunk n out
  IsSoundReader rest (adding n out seen) =
      IsChunk n out × (base ≤ seen) × (0 < length out.value.1) × (seen + rest ≤ limit)
  IsSoundReader rest (returned n out) = IsChunk n out

  abbrev pub AllSound : ℕ → List Reader → Type 0
  AllSound rest [] = Unit {0}
  AllSound rest (r ∷ rs) = IsSoundReader rest r × AllSound rest rs

  pub record IsSoundPool (s : Pool) : Type 0 where
    pub beyond : base ≤ s.0
    pub within : s.0 + due_all s.1 ≤ limit
    pub readers : AllSound (due_all s.1) s.1

  pub weaken : (m n : ℕ) (r : Reader) → m ≤ n → IsSoundReader n r → IsSoundReader m r
  weaken m n (waiting k) h s = s
  weaken m n (read_at k out) h s = s
  weaken m n (adding k out seen) h s = (s.0, s.1, s.2, omega arith)
  weaken m n (returned k out) h s = s

  pub weaken_all : (m n : ℕ) (rs : List Reader) → m ≤ n → AllSound n rs → AllSound m rs
  weaken_all m n [] h s = tt
  weaken_all m n (r ∷ rs) h s = (weaken m n r h s.0, weaken_all m n rs h s.1)

  module _ (root : Root) (ino : ℕ) (d : HasContent root ino content) (small : limit ≤ off_max) where
    pub turn-waiting :
        (position n : ℕ)
        → position ≤ limit
        → n < 2 ^ 31
        → let c = chunk content position n in
          turn root ino position (waiting n) ≡ (position, read_at n (returns (pos (length c), c)))
    unfolding turn
    turn-waiting position n w s =
        let low : position ≤ off_max = omega (arith, small) in
        ground (arith, d.reads n position s low, d.fits, length-chunk content position n)

    -- A turn, where the other threads may still add `others`: the position and what is due stay within
    -- the limit, what is due does not grow, and the thread stays sound.
    abbrev Keeps : ℕ → ℕ → Reader → Type 0
    Keeps position others r =
        let t = turn root ino position r in
        (t.0 + (due t.1 + others) ≤ limit)
        × (due t.1 ≤ due r)
        × (base ≤ t.0)
        × IsSoundReader (due t.1 + others) t.1

    read_at-Keeps :
        (position others n : ℕ) (out : Out (ℤ × Bytes))
        → base ≤ position
        → position + (length out.value.1 + others) ≤ limit
        → IsChunk n out
        → Keeps position others (read_at n out)
    unfolding turn
    read_at-Keeps position others n out b w s = elim (Bool-cases (ltb_ℤ (pos 0) out.value.0)) [
      | inl more ↦
          let (off, from, low, e) = s in
          let same : out.value.0 ≡ pos (length out.value.1) = rw e refl in
          rw more (w, omega arith, b, (s, b, ground (arith, same), w))
      | inr none_left ↦ rw none_left (omega arith, omega arith, b, s)
    ]

    turn-Keeps :
        (position others : ℕ) (r : Reader)
        → base ≤ position
        → position + (due r + others) ≤ limit
        → IsSoundReader (due r + others) r
        → Keeps position others r
    turn-Keeps position others (waiting n) b w s =
        let len = length-chunk content position n in
        rw (turn-waiting position n (omega arith) s)
          (omega (arith, len), omega (arith, len), b, (position, b, omega arith, refl))
    turn-Keeps position others (read_at n out) b w s = read_at-Keeps position others n out b w s
    turn-Keeps position others (adding n out seen) b w s =
        let (off, from, low, e) = s.0 in
        let c = chunk content off n in
        let same : length out.value.1 ≡ length c = ap (λ o. length o.value.1) e in
        let room : seen + (length c + others) ≤ limit = omega (arith, s.3) in
        subst (λ o. Keeps position others (adding n o seen)) (sym e)
          (rw (turn-adding root ino position n seen c (omega (arith, small)))
            (omega arith, omega arith, omega (arith, s.1), (off, from, low, refl)))
    turn-Keeps position others (returned n out) b w s = unfold turn in (w, omega arith, b, s)

    -- A turn of one thread of many, where threads in front may still add `others`.
    turn_of-IsSound :
        (i position others : ℕ) (rs : List Reader)
        → base ≤ position
        → position + (others + due_all rs) ≤ limit
        → AllSound (others + due_all rs) rs
        → let t = turn_of root ino i position rs in
          (t.0 + (others + due_all t.1) ≤ limit)
          × (due_all t.1 ≤ due_all rs)
          × (base ≤ t.0)
          × AllSound (others + due_all t.1) t.1
    unfolding turn_of
    turn_of-IsSound i position others [] b w s = (w, omega arith, b, tt)
    turn_of-IsSound zero position others (r ∷ rs) b w s =
        let k =
          turn-Keeps position (others + due_all rs) r b (omega arith)
            (weaken _ _ r (omega arith) s.0) in
        let t = turn root ino position r in
        (
          omega (arith, k.0),
          omega (arith, k.1),
          k.2,
          (weaken _ _ t.1 (omega arith) k.3, weaken_all _ _ rs (omega (arith, k.1)) s.1),
        )
    turn_of-IsSound (suc i) position others (r ∷ rs) b w s =
        let k =
          turn_of-IsSound i position (others + due r) rs b (omega arith)
            (weaken_all _ _ rs (omega arith) s.1) in
        (
          omega (arith, k.0),
          omega (arith, k.1),
          k.2,
          (weaken _ _ r (omega (arith, k.1)) s.0, weaken_all _ _ _ (omega arith) k.3),
        )

    pub turn_of-IsSoundPool :
        (i : ℕ) (s : Pool) → IsSoundPool s → IsSoundPool (turn_of root ino i s.0 s.1)
    turn_of-IsSoundPool i s h =
        let k =
          turn_of-IsSound i s.0 0 s.1 h.beyond (omega (arith, h.within))
            (weaken_all _ _ s.1 (omega arith) h.readers) in
        record {
          beyond = k.2;
          within = omega (arith, k.0);
          readers = weaken_all _ _ _ (omega arith) k.3;
        }

    pub run-IsSoundPool :
        (schedule : List ℕ) (s : Pool) → IsSoundPool s → IsSoundPool (run root ino schedule s)
    unfolding run
    run-IsSoundPool [] s h = h
    run-IsSoundPool (i ∷ schedule) s h =
        run-IsSoundPool schedule (turn_of root ino i s.0 s.1) (turn_of-IsSoundPool i s h)
