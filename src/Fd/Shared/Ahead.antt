-- ===== src/Fd/Shared/Ahead.antt =====
-- What threads that read one descriptor got has moved its position, whatever the schedule.
use libdwarfs.Prelude.{
  ℕ, ℤ, pos, zero, suc, ◌+◌, ◌<◌, ◌≤◌, ◌≡◌, refl, ltb_ℤ, List, [], ◌∷◌, Bytes, length, arith,
  Bool-cases, ◌⊎◌, inl, inr, sym, subst, get_elem?, some,
}
use libdwarfs.Errno.{Out}
use libdwarfs.Root.{Root}
use libdwarfs.Fd.Seek.{off_max}
use libdwarfs.Fd.Contents.{HasContent, chunk}
use libdwarfs.Fd.Shared.{Reader, waiting, read_at, adding, returned, Pool, turn, turn_of, run}
use libdwarfs.Fd.Shared.Sound.{
  turn-adding, due, due_all, IsChunk, IsSoundReader, AllSound, IsSoundPool, weaken, weaken_all,
  turn_of-IsSoundPool,
}

-- A thread that has returned bytes left the position behind the base.
abbrev pub Moved : ℕ → ℕ → Reader → Type 0
Moved base position (waiting n) = Unit {0}
Moved base position (read_at n out) = Unit {0}
Moved base position (adding n out seen) = Unit {0}
Moved base position (returned n out) = 0 < length out.value.1 → base < position

abbrev pub AllMoved : ℕ → ℕ → List Reader → Type 0
AllMoved base position [] = Unit {0}
AllMoved base position (r ∷ rs) = Moved base position r × AllMoved base position rs

-- The position stays, or is behind the base.
abbrev GoesOn : ℕ → ℕ → ℕ → Type 0
GoesOn base position next = (next ≡ position) ⊎ (base < next)

GoesOn-Moved :
    (base position next : ℕ) (r : Reader)
    → GoesOn base position next
    → Moved base position r
    → Moved base next r
GoesOn-Moved base position next (waiting n) g m = tt
GoesOn-Moved base position next (read_at n out) g m = tt
GoesOn-Moved base position next (adding n out seen) g m = tt
GoesOn-Moved base position next (returned n out) (inl e) m = λ h. omega (arith, e, m h)
GoesOn-Moved base position next (returned n out) (inr b) m = λ h. b

GoesOn-AllMoved :
    (base position next : ℕ) (rs : List Reader)
    → GoesOn base position next
    → AllMoved base position rs
    → AllMoved base next rs
GoesOn-AllMoved base position next [] g m = tt
GoesOn-AllMoved base position next (r ∷ rs) g m =
    (GoesOn-Moved base position next r g m.0, GoesOn-AllMoved base position next rs g m.1)

module _ (content : Bytes) (base limit : ℕ) (root : Root) (ino : ℕ) (small : limit ≤ off_max) where
  abbrev Keeps : ℕ → Reader → Type 0
  Keeps position r =
      let t = turn root ino position r in Moved base t.0 t.1 × GoesOn base position t.0

  read_at-Keeps :
      (position n : ℕ) (out : Out (ℤ × Bytes))
      → IsChunk content base limit n out
      → Keeps position (read_at n out)
  unfolding turn
  read_at-Keeps position n out (off, from, low, e) =
      let same : out.value.0 ≡ pos (length out.value.1) = rw e refl in
      elim (Bool-cases (ltb_ℤ (pos 0) out.value.0)) [
        | inl more ↦ rw more (tt, inl refl)
        | inr none_left ↦ rw none_left (λ h. absurd (ground (arith, same)), inl refl)
      ]

  turn-Keeps :
      (position others : ℕ) (r : Reader)
      → IsSoundReader content base limit (due r + others) r
      → Moved base position r
      → Keeps position r
  turn-Keeps position others (waiting n) s m = unfold turn in (tt, inl refl)
  turn-Keeps position others (read_at n out) s m = read_at-Keeps position n out s
  turn-Keeps position others (adding n out seen) s m =
      let (off, from, low, e) = s.0 in
      let c = chunk content off n in
      let got : 0 < length c = subst (λ o. 0 < length o.value.1) e s.2 in
      let room : seen + (length c + others) ≤ limit =
        subst (λ o. seen + (length o.value.1 + others) ≤ limit) e s.3 in
      subst (λ o. Keeps position (adding n o seen)) (sym e)
        (rw (turn-adding root ino position n seen c (omega (arith, small)))
          (λ h. omega (arith, s.1), inr (omega (arith, s.1))))
  turn-Keeps position others (returned n out) s m = unfold turn in (m, inl refl)

  turn_of-AllMoved :
      (i position others : ℕ) (rs : List Reader)
      → AllSound content base limit (others + due_all rs) rs
      → AllMoved base position rs
      → let t = turn_of root ino i position rs in AllMoved base t.0 t.1 × GoesOn base position t.0
  unfolding turn_of
  turn_of-AllMoved i position others [] s m = (tt, inl refl)
  turn_of-AllMoved zero position others (r ∷ rs) s m =
      let k =
        turn-Keeps position (others + due_all rs) r
          (weaken content base limit _ _ r (omega arith) s.0) m.0 in
      ((k.0, GoesOn-AllMoved base position _ rs k.1 m.1), k.1)
  turn_of-AllMoved (suc i) position others (r ∷ rs) s m =
      let k =
        turn_of-AllMoved i position (others + due r) rs
          (weaken_all content base limit _ _ rs (omega arith) s.1) m.1 in
      ((GoesOn-Moved base position _ r k.1 m.0, k.0), k.1)

  pub run-AllMoved :
      (schedule : List ℕ) (s : Pool)
      → HasContent root ino content
      → IsSoundPool content base limit s
      → AllMoved base s.0 s.1
      → let t = run root ino schedule s in AllMoved base t.0 t.1
  unfolding run
  run-AllMoved [] s d h m = m
  run-AllMoved (i ∷ schedule) s d h m =
      run-AllMoved schedule (turn_of root ino i s.0 s.1) d
        (turn_of-IsSoundPool content base limit root ino d small i s h)
        (turn_of-AllMoved i s.0 0 s.1
          (weaken_all content base limit _ _ s.1 (omega arith) h.readers) m).0

pub AllMoved-get_elem? :
    (base position i : ℕ) (rs : List Reader) (r : Reader)
    → AllMoved base position rs
    → get_elem? rs i ≡ some r
    → Moved base position r
AllMoved-get_elem? base position i [] r m e = absurd (ground arith)
AllMoved-get_elem? base position zero (x ∷ rs) r m e =
    let k : x ≡ r = cc in subst (Moved base position) k m.0
AllMoved-get_elem? base position (suc i) (x ∷ rs) r m e =
    AllMoved-get_elem? base position i rs r m.1 e
