-- ===== src/Process/Adjusts.antt =====
-- The calls on an open file: they change its entry in place, and never the descriptor that it holds.
use libdwarfs.Prelude.{
  ℕ, ℤ, pos, ◌+ℤ◌, neg, ltb_ℤ, ◌≡◌, refl, Bool, true, false, Option, none, some, List, [], ◌∷◌,
  ◌==ℤ◌, ==ℤ_iff, ◌&&◌, inl, inr, if◌then◌else◌, arith, Bool-cases, Option-cases, take, pos_part,
}
use libdwarfs.Prelude.Maps.{find, assign, int_eq, find-assign}
use libdwarfs.Errno.{Errno, later}
use libdwarfs.Root.{Root}
use libdwarfs.System.{System}
use libdwarfs.Fd.State.{Fd, FdTable, flock}
use libdwarfs.Fd.Seek.{
  off_max, Whence, to_off, seek_set, seek_cur, seek_end, invalid, lseek, seek, seek_from, move_to,
}
use libdwarfs.Fd.Read.{read, readv, readv_loop, advance}
use libdwarfs.Fd.Descriptors.{IsBacked}

-- At most one entry differs, and it holds the same descriptor.
pub data Adjusts (t : FdTable) : FdTable → Type 0 where
  same : Adjusts t t
  entry :
      (vfd : ℤ) (fd fd' : Fd)
      → find vfd t ≡ some fd
      → fd'.handle ≡ fd.handle
      → Adjusts t (assign vfd fd' t)

pub Adjusts-IsBacked :
    (sys : System) (t t' : FdTable) (os : sys.Os)
    → Adjusts t t'
    → IsBacked sys t os
    → IsBacked sys t' os
Adjusts-IsBacked sys t t' os same b j e q = b j e q
Adjusts-IsBacked sys t t' os (entry vfd fd fd' f h) b j e q = elim (Bool-cases (vfd ==ℤ j)) [
  | inl y ↦
      let k = b vfd fd f in
      record {
        number = k.number;
        named = ground (arith, ==ℤ_iff vfd j, k.named);
        held = ground (arith, k.held, find-assign vfd j fd' t);
        is_open = k.is_open;
      }
  | inr y ↦ b j e (ground (arith, find-assign vfd j fd' t))
]

-- Either branch.
choose : {A : Type 0} (P : A → Type 0) (b : Bool) (x y : A) → P x → P y → P (if b then x else y)
choose P true x y p q = p
choose P false x y p q = q

pub read-Adjusts : (root : Root) (t : FdTable) (vfd : ℤ) (n : ℕ) → Adjusts t (read root t vfd n).0
unfolding read
read-Adjusts root t vfd n = elim (Option-cases (find vfd t)) [
  | inl e ↦ rw (read, e) same
  | inr (fd, e) ↦ rw (read, e) (choose (Adjusts t) _ _ _ (entry vfd fd _ e refl) same)
]

readv_loop-handle :
    (root : Root) (iov : List ℕ) (fd : Fd) (ret : ℤ) (e : Option Errno)
    → (readv_loop root iov fd ret e).fd.handle ≡ fd.handle
unfolding readv_loop
readv_loop-handle root [] fd ret e = refl
readv_loop-handle root (len ∷ iov) fd ret e =
    let r = root.inode_read fd.st.st_ino len (to_off fd.position) in
    let rest =
      readv_loop-handle root iov (advance fd r.value.0) (ret +ℤ r.value.0) (later e r.errno) in
    ground (arith, rest)

pub readv-Adjusts :
    (root : Root) (t : FdTable) (vfd : ℤ) (iov : List ℕ) (iovcnt : ℤ)
    → Adjusts t (readv root t vfd iov iovcnt).0
unfolding readv
readv-Adjusts root t vfd iov iovcnt = elim (Bool-cases (ltb_ℤ iovcnt (pos 0))) [
  | inl n ↦ rw (readv, n) same
  | inr n ↦ elim (Option-cases (find vfd t)) [
    | inl e ↦ rw (readv, n, e) same
    | inr (fd, e) ↦
        rw (readv, n, e)
          (entry vfd fd _ e (readv_loop-handle root (take (pos_part iovcnt) iov) fd (pos 0) none))
  ]
]

pub flock-Adjusts : (t : FdTable) (vfd : ℤ) (operation : ℕ) → Adjusts t (flock t vfd operation).0
unfolding flock
flock-Adjusts t vfd operation = elim (Option-cases (find vfd t)) [
  | inl e ↦ rw (flock, e) same
  | inr (fd, e) ↦ rw (flock, e) (entry vfd fd _ e refl)
]

seek_from-Adjusts :
    (t : FdTable) (vfd : ℤ) (fd : Fd) (base least offset : ℤ)
    → find vfd t ≡ some fd
    → Adjusts t (seek_from t vfd fd base least offset).0
unfolding seek_from move_to
seek_from-Adjusts t vfd fd base least offset e =
    elim (Bool-cases (ltb_ℤ offset (pos 0) && ltb_ℤ base least)) [
      | inl low ↦ rw (seek_from, low) same
      | inr low ↦
          elim (Bool-cases (ltb_ℤ (pos 0) offset && ltb_ℤ (pos off_max +ℤ neg offset) base)) [
            | inl high ↦ rw (seek_from, low, high) same
            | inr high ↦ rw (seek_from, low, high) (entry vfd fd _ e refl)
          ]
    ]

seek-Adjusts :
    (t : FdTable) (vfd : ℤ) (fd : Fd) (offset : ℤ) (whence : Whence)
    → find vfd t ≡ some fd
    → Adjusts t (seek t vfd fd offset whence).0
unfolding seek move_to
seek-Adjusts t vfd fd offset seek_set e = elim (Bool-cases (ltb_ℤ offset (pos 0))) [
  | inl low ↦ rw (seek, low) same
  | inr low ↦ rw (seek, low) (entry vfd fd _ e refl)
]
seek-Adjusts t vfd fd offset seek_cur e = seek_from-Adjusts t vfd fd _ _ offset e
seek-Adjusts t vfd fd offset seek_end e = seek_from-Adjusts t vfd fd _ _ offset e
seek-Adjusts t vfd fd offset invalid e = same

pub lseek-Adjusts :
    (t : FdTable) (vfd offset : ℤ) (whence : Whence) → Adjusts t (lseek t vfd offset whence).0
unfolding lseek
lseek-Adjusts t vfd offset whence = elim (Option-cases (find vfd t)) [
  | inl e ↦ rw (lseek, e) same
  | inr (fd, e) ↦ rw (lseek, e) (seek-Adjusts t vfd fd offset whence e)
]
