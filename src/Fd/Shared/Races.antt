-- ===== src/Fd/Shared/Races.antt =====
-- Two threads that read one descriptor at the same time.
use libdwarfs.Prelude.{ℕ, ℤ, pos, ◌+◌, ◌^◌, ◌<◌, ◌≡◌, refl, [], ◌∷◌, Bytes, length, arith}
use libdwarfs.Errno.{Out, returns}
use libdwarfs.Root.{Root}
use libdwarfs.Fd.Seek.{off_max}
use libdwarfs.Fd.Contents.{HasContent, chunk, length-chunk}
use libdwarfs.Fd.Shared.Sound.{turn-waiting, turn-adding}
use libdwarfs.Fd.Shared.{waiting, read_at, adding, returned, turn, turn_of, run}

turn-read_at :
    (root : Root) (ino p n : ℕ) (c : Bytes)
    → 0 < length c
    → let out : Out (ℤ × Bytes) = returns (pos (length c), c) in
      turn root ino p (read_at n out) ≡ (p, adding n out p)
unfolding turn
turn-read_at root ino p n c h = ground arith

-- Two threads that read from a position in front of the end of a file, each at least one byte and fewer
-- than 2^31: there is a schedule, in which both are named three times, after which both have returned the bytes
-- at that position, and the position is behind it by the two numbers of bytes together, so that what
-- stands between is given to neither.
pub run_twice :
    (root : Root) (ino : ℕ) (content : Bytes) (p n m : ℕ)
    → HasContent root ino content
    → p < length content
    → 0 < n
    → n < 2 ^ 31
    → 0 < m
    → m < 2 ^ 31
    → let a = chunk content p n in
      let b = chunk content p m in
      run root ino (0 ∷ 1 ∷ 0 ∷ 0 ∷ 1 ∷ 1 ∷ []) (p, waiting n ∷ waiting m ∷ []) ≡ (
        p + length a + length b,
        returned n (returns (pos (length a), a)) ∷ returned m (returns (pos (length b), b)) ∷ [],
      )
unfolding run turn_of
run_twice root ino content p n m d h n_pos n_small m_pos m_small =
    let a = chunk content p n in
    let b = chunk content p m in
    let a_len = length-chunk content p n in
    let b_len = length-chunk content p m in
    rw
      (
        turn-waiting content 0 off_max root ino d (omega arith) p n (omega (arith, d.fits)) n_small,
        turn-waiting content 0 off_max root ino d (omega arith) p m (omega (arith, d.fits)) m_small,
        turn-read_at root ino p n a (omega (arith, a_len)),
        turn-adding root ino p n p a (omega (arith, a_len, d.fits)),
        turn-read_at root ino (p + length a) m b (omega (arith, b_len)),
        turn-adding root ino (p + length a) m (p + length a) b
            (omega (arith, a_len, b_len, d.fits)),
      )
      refl
