-- ===== src/Fd/Shared.antt =====
-- Several threads in sync_tebako_fdtable::read (src/tebako-fd.cpp) on one descriptor. The call holds the
-- table's lock for readers only, which does not keep the others out, so that it is not one step: `pos`
-- is loaded for dwarfs_inode_read, and `pos += ret` loads and stores it again. Each load and each store
-- is taken as one step, in the order that a schedule names the threads in.
pub mod Sound
pub mod Ahead
pub mod Progress
pub mod Races
use libdwarfs.Prelude.{
  ℕ, ℤ, pos, zero, suc, ◌+ℤ◌, ltb_ℤ, int_of, List, [], ◌∷◌, Bytes, if◌then◌else◌,
}
use libdwarfs.Errno.{Out}
use libdwarfs.Root.{Root}
use libdwarfs.Fd.Seek.{to_u64, to_off}

-- How far a thread is with its read of `nbyte` bytes: in front of it, with the answer of the image, with
-- the position that it adds to, and at the end. The answer is the result, the bytes and errno.
pub data Reader : Type 0 where
  waiting : ℕ → Reader
  read_at : ℕ → Out (ℤ × Bytes) → Reader
  adding : ℕ → Out (ℤ × Bytes) → ℕ → Reader
  returned : ℕ → Out (ℤ × Bytes) → Reader

-- The position of the descriptor, and the threads.
abbrev pub Pool : Type 0
Pool = ℕ × List Reader

-- `ino` is the inode of the descriptor.
module _ (root : Root) (ino : ℕ) where
  unfoldable pub turn : ℕ → Reader → ℕ × Reader
  turn position (waiting nbyte) =
      let r = root.inode_read ino nbyte (to_off position) in
      (position, read_at nbyte (record { value = (int_of r.value.0, r.value.1); errno = r.errno }))
  turn position (read_at nbyte out) = (
    position,
    if ltb_ℤ (pos 0) out.value.0 then adding nbyte out position else returned nbyte out,
  )
  turn position (adding nbyte out seen) = (to_u64 (pos seen +ℤ out.value.0), returned nbyte out)
  turn position (returned nbyte out) = (position, returned nbyte out)

  -- The turn of the thread with this index.
  unfoldable pub turn_of : ℕ → ℕ → List Reader → Pool
  turn_of i position [] = (position, [])
  turn_of zero position (r ∷ rs) = let (p, r') = turn position r in (p, r' ∷ rs)
  turn_of (suc i) position (r ∷ rs) = let (p, rs') = turn_of i position rs in (p, r ∷ rs')

  unfoldable pub run : List ℕ → Pool → Pool
  run [] s = s
  run (i ∷ schedule) s = run schedule (turn_of i s.0 s.1)
