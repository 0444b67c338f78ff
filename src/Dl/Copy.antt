-- ===== src/Dl/Copy.antt =====
-- The loop of sync_tebako_dltable::map2file: the copy of an open file of memfs into a file of the system.
use libdwarfs.Prelude.{
  ℕ, ℤ, pos, zero, suc, ◌+◌, ◌-◌, ◌*◌, ◌^◌, ◌<◌, ◌≤◌, ◌≡◌, refl, ap, ◌∙◌, true, false, Option, some,
  ◌++◌, Bytes, take, drop, length, ◌+ℤ◌, neg, append-nil, append_assoc, drop-ge, inl, inr,
  Bool-cases, ◌==◌, ◌==ℤ◌, ==ℤ_iff, arith, if◌then◌else◌, subst,
}
use libdwarfs.Prelude.Maps.{find, int_eq}
use libdwarfs.Root.{Root}
use libdwarfs.System.{System}
use libdwarfs.Cwd.{Cwd}
use libdwarfs.Fd.State.{Fd, FdTable}
use libdwarfs.Fd.Seek.{to_u64}
use libdwarfs.Fd.Contents.{HasContent, chunk, moved, length-chunk}
use libdwarfs.Dl.Foreign.{Host, read_file}
use libdwarfs.Dl.Chunk.{take_all, chunk-drop, read_file-chunk}
use libdwarfs.Dl.{Copied, bsize, copy, copy_round}

-- The system's files, each written by one descriptor from its start: `held` is what a file holds, and
-- `name` the file of a descriptor. A write takes all bytes, and the other calls leave the files alone.
pub record Disk (sys : System) (host : Host sys) : Type 0 where
  pub held : sys.Os → Bytes → Bytes
  pub name : sys.Os → ℕ → Bytes
  pub creates :
      (os os' : sys.Os) (file : Bytes) (mode n : ℕ)
      → host.create os file mode ≡ some (n, os')
      → (name os' n ≡ file) × ((f : Bytes) → held os' f ≡ held os f)
  pub writes :
      (os : sys.Os) (n : ℕ) (bytes : Bytes)
      → let r = host.write os n bytes in
        (r.0 ≡ pos (length bytes))
        × (name r.1 n ≡ name os n)
        × (held r.1 (name os n) ≡ held os (name os n) ++ bytes)
  pub closes : (os : sys.Os) (n : ℕ) (f : Bytes) → held (sys.close os n) f ≡ held os f

-- The end of a loop that copied to the end: the file held `before` at the start.
pub record IsCopied (sys : System) (host : Host sys) (disk : Disk sys host) (fh_in : ℤ) (fh_out : ℕ)
    (fd : Fd) (target before content : Bytes) (c : Copied sys.Os) : Type 0 where
  pub whole : c.left ≡ 0
  pub holds : disk.held c.os target ≡ before ++ drop fd.position content
  pub found : find fh_in c.fds ≡ some (record fd { position = length content })

module _ (sys : System) (host : Host sys) (root : Root) (cwd : Cwd) where
  open sys use {Os}

  round_unwritten :
      (next : FdTable → Os → ℕ → Option (Copied Os)) (fds fds' : FdTable) (os : Os) (fh_in : ℤ)
      (fh_out : ℕ) (c : Bytes)
      → read_file sys host root fds os fh_in bsize ≡ (fds', os, (pos (length c), c))
      → 0 < length c
      → length c < 2 ^ 64
      → let os' = (host.write os fh_out c).1 in
        let broken : Copied Os = record { fds = fds'; os = os'; left = 0 } in
        copy_round sys host root cwd next fds os fh_in fh_out (length c)
        ≡ (if pos (length c) ==ℤ (host.write os fh_out c).0 then next fds' os' 0 else some broken)
  unfolding copy_round
  round_unwritten next fds fds' os fh_in fh_out c r some_read small =
      let left : to_u64 (pos (length c) +ℤ neg (pos (length c))) ≡ 0 = ground arith in
      rw (copy_round, r, left) (ground arith)

  short_write :
      (fuel : ℕ) (fds fds' : FdTable) (os : Os) (fh_in : ℤ) (fh_out : ℕ) (c : Bytes)
      → read_file sys host root fds os fh_in bsize ≡ (fds', os, (pos (length c), c))
      → 0 < length c
      → length c < 2 ^ 64
      → (x : Copied Os) × (copy sys host root cwd (suc (suc fuel)) fds os fh_in fh_out (length c)
          ≡ some x)
        × (x.left ≡ 0)
        × (x.os ≡ (host.write os fh_out c).1)
  unfolding copy
  short_write fuel fds fds' os fh_in fh_out c r some_read small =
      let more : (length c == 0) ≡ false = ground arith in
      let next : FdTable → Os → ℕ → Option (Copied Os) =
        λ fds'' os'' left. copy sys host root cwd (suc fuel) fds'' os'' fh_in fh_out left in
      let e = round_unwritten next fds fds' os fh_in fh_out c r some_read small in
      (
        record { fds = fds'; os = (host.write os fh_out c).1; left = 0 },
        rw (copy, more) (e ∙ ground arith),
        refl,
        refl,
      )

  -- A file that is not empty and fits the buffer of 16 KB, opened and not read yet: the loop ends after
  -- one write with nothing left, whatever that write gives, so that a short or failed one goes unnoticed.
  pub copy_short_write :
      (fuel : ℕ) (content : Bytes) (fds : FdTable) (os : Os) (fh_in : ℤ) (fh_out : ℕ) (fd : Fd)
      → HasContent root fd.st.st_ino content
      → find fh_in fds ≡ some fd
      → fd.position ≡ 0
      → 0 < length content
      → length content ≤ bsize
      → (c : Copied Os) × (copy sys host root cwd
            (suc (suc fuel))
            fds
            os
            fh_in
            fh_out
            (length content)
          ≡ some c)
        × (c.left ≡ 0)
        × (c.os ≡ (host.write os fh_out content).1)
  copy_short_write fuel content fds os fh_in fh_out fd h f start some_read fits =
      let c = chunk content fd.position bsize in
      let whole : c ≡ content =
        ap (λ k. take bsize (drop k content)) start ∙ take_all bsize content fits in
      let (fds', read_c, found) =
        read_file-chunk sys host root content fds os fh_in fd h f (omega arith) in
      let read_all : read_file sys host root fds os fh_in bsize
          ≡ (fds', os, (pos (length content), content)) =
        subst (λ x. read_file sys host root fds os fh_in bsize ≡ (fds', os, (pos (length x), x)))
          whole read_c in
      short_write fuel fds fds' os fh_in fh_out content read_all some_read (omega (arith, h.fits))

module _ (sys : System) (host : Host sys) (disk : Disk sys host) (root : Root) (cwd : Cwd) where
  open sys use {Os}

  -- A round that reads bytes, and goes on.
  copy_round-next :
      (next : FdTable → Os → ℕ → Option (Copied Os)) (fds fds' : FdTable) (os : Os) (fh_in : ℤ)
      (fh_out size : ℕ) (c : Bytes)
      → read_file sys host root fds os fh_in bsize ≡ (fds', os, (pos (length c), c))
      → 0 < length c
      → length c ≤ size
      → size < 2 ^ 64
      → copy_round sys host root cwd next fds os fh_in fh_out size
        ≡ next fds' (host.write os fh_out c).1 (size - length c)
  unfolding copy_round
  copy_round-next next fds fds' os fh_in fh_out size c r some_read fits small =
      let left : to_u64 (pos size +ℤ neg (pos (length c))) ≡ size - length c = ground arith in
      rw (copy_round, r, (disk.writes os fh_out c).0, left)
        (ground (arith, ==ℤ_iff (pos (length c)) (pos (length c))))

  at_end :
      (target before content : Bytes) (fds : FdTable) (os : Os) (fh_in : ℤ) (fh_out : ℕ) (fd : Fd)
      → find fh_in fds ≡ some fd
      → fd.position ≡ length content
      → disk.held os target ≡ before
      → IsCopied sys host disk fh_in fh_out fd target before content
          (record { fds = fds; os = os; left = 0 })
  at_end target before content fds os fh_in fh_out fd f e b = record {
    whole = refl;
    holds = rw ((drop-ge fd.position content (omega arith)).1, append-nil before) b;
    found = subst (λ k. find fh_in fds ≡ some (record fd { position = k })) e f;
  }

  from_next :
      (target before content : Bytes) (fh_in : ℤ) (fh_out : ℕ) (fd : Fd) (x : Copied Os)
      → let c = chunk content fd.position bsize in
        IsCopied sys host disk fh_in fh_out (moved fd (length c)) target (before ++ c) content x
        → IsCopied sys host disk fh_in fh_out fd target before content x
  from_next target before content fh_in fh_out fd x q = record {
    whole = q.whole;
    holds =
        let c = chunk content fd.position bsize in
        q.holds
        ∙ append_assoc before c (drop (fd.position + length c) content)
        ∙ ap (λ t. before ++ t) (chunk-drop content fd.position bsize);
    found = q.found;
  }

  written_all :
      (target before c : Bytes) (os : Os) (fh_out : ℕ)
      → disk.name os fh_out ≡ target
      → disk.held os target ≡ before
      → disk.held (host.write os fh_out c).1 target ≡ before ++ c
  written_all target before c os fh_out n b =
      subst (λ t. disk.held (host.write os fh_out c).1 t ≡ disk.held os t ++ c) n
        (disk.writes os fh_out c).2
      ∙ ap (λ t. t ++ c) b

  pub copy_lem :
      (fuel : ℕ) (target before content : Bytes) (fds : FdTable) (os : Os) (fh_in : ℤ) (fh_out : ℕ)
      (fd : Fd)
      → HasContent root fd.st.st_ino content
      → find fh_in fds ≡ some fd
      → fd.position ≤ length content
      → length content - fd.position ≤ fuel * bsize
      → disk.name os fh_out ≡ target
      → disk.held os target ≡ before
      → (c : Copied Os) × (copy sys host root cwd
            (suc fuel)
            fds
            os
            fh_in
            fh_out
            (length content - fd.position)
          ≡ some c)
        × IsCopied sys host disk fh_in fh_out fd target before content c
  unfolding copy
  copy_lem zero target before content fds os fh_in fh_out fd h f low enough n b =
      let none_left : (length content - fd.position == 0) ≡ true = ground arith in
      (
        record { fds = fds; os = os; left = 0 },
        rw (copy, none_left) refl,
        at_end target before content fds os fh_in fh_out fd f (omega arith) b,
      )
  copy_lem (suc fuel) target before content fds os fh_in fh_out fd h f low enough n b =
      elim (Bool-cases (length content - fd.position == 0)) [
        | inl z ↦ (
          record { fds = fds; os = os; left = 0 },
          rw (copy, z) refl,
          at_end target before content fds os fh_in fh_out fd f (ground arith) b,
        )
        | inr more ↦
            let c = chunk content fd.position bsize in
            let (fds', read_c, found) =
              read_file-chunk sys host root content fds os fh_in fd h f low in
            let named = (disk.writes os fh_out c).1 in
            let len = length-chunk content fd.position bsize in
            let before' = before ++ c in
            let rest_len : length content - fd.position - length c
                ≡ length content - (fd.position + length c) =
              omega arith in
            let next =
              copy_lem fuel target before' content fds' (host.write os fh_out c).1 fh_in fh_out
                (moved fd (length c)) h found (omega (arith, len)) (omega (arith, len)) (named ∙ n)
                (written_all target before c os fh_out n b) in
            let step =
              copy_round-next
                (λ fds'' os'' left. copy sys host root cwd (suc fuel) fds'' os'' fh_in fh_out left)
                fds fds' os fh_in fh_out (length content - fd.position) c read_c
                (ground (arith, len)) (omega (arith, len)) (omega (arith, h.fits)) in
            (
              next.0,
              rw (copy, more)
                  (step
                    ∙ ap
                        (λ k.
                          copy sys host root cwd (suc fuel) fds' (host.write os fh_out c).1 fh_in
                            fh_out k)
                        rest_len
                    ∙ next.1),
              from_next target before content fh_in fh_out fd next.0 next.2,
            )
      ]
