-- ===== src/Fd/OpenLaws.antt =====
-- What `open` gives on every branch.
use libdwarfs.Prelude.{
  ℕ, ℤ, pos, ◌≡◌, ◌≢◌, refl, true, some, Bytes, arith, ◌⊎◌, inl, inr, Bool-cases, not, ◌==ℤ◌,
  ==ℤ_iff,
}
use libdwarfs.Prelude.Maps.{find, int_eq, find-assign, find-assign_self}
use libdwarfs.Errno.{dwarfs_io_continue, dwarfs_io_error, dwarfs_s_link_outside, erofs}
use libdwarfs.Root.{Root, Found}
use libdwarfs.System.{System, IsPosix}
use libdwarfs.Fd.State.{FdTable}
use libdwarfs.Fd.Open.{OpenFlags, Opened, wants_write, take_descriptor, settle, open_path}
use libdwarfs.Fd.Descriptors.{IsBacked, admits, new_entry, take_descriptor-some}

module _ (sys : System) (posix : IsPosix sys) where
  open sys use {Os, dup}

  pub settle-admits :
      (t : FdTable) (os : Os) (flags : OpenFlags) (f : Found)
      → admits flags f ≡ true
      → settle sys t os flags f ≡ take_descriptor sys t os f
  unfolding settle
  settle-admits t os flags f h = ground arith

  -- If the search finds something that the flags admit and the system has a descriptor `n` left, then
  -- open gives `n`, the new entry holds what was found at position 0, and every other entry is as it
  -- was.
  pub open_path_lem :
      (root : Root) (t : FdTable) (os os' : Os) (n : ℕ) (path : Bytes) (flags : OpenFlags)
      (lnk : Bytes)
      → let f = root.stat path (not flags.o_nofollow) lnk in
        IsBacked sys t os
        → admits flags f ≡ true
        → dup os ≡ some (n, os')
        → let r = open_path sys root t os path flags lnk in
          (r.ret ≡ pos n)
          × (find (pos n) r.table ≡ some (new_entry f n))
          × ((j : ℤ) → pos n ≢ j → find j r.table ≡ find j t)
  unfolding open_path
  open_path_lem root t os os' n path flags lnk b h d =
      let f = root.stat path (not flags.o_nofollow) lnk in
      let e = settle-admits t os flags f h in
      let taken = take_descriptor-some sys posix t os os' n f b d in
      (
        rw (e, taken),
        rw (e, taken) (find-assign_self (pos n) (new_entry f n) t),
        λ j ne.
            rw (e, taken)
              (ground (arith, find-assign (pos n) j (new_entry f n) t, ==ℤ_iff (pos n) j)),
      )

-- A flag with which the file may be written, cut off or made.
abbrev pub MayWrite : OpenFlags → Type 0
MayWrite flags =
    (flags.o_rdwr ≡ true)
    ⊎ (flags.o_wronly ≡ true)
    ⊎ (flags.o_trunc ≡ true)
    ⊎ (flags.o_creat ≡ true)

MayWrite-wants_write : (flags : OpenFlags) → MayWrite flags → wants_write flags ≡ true
MayWrite-wants_write flags h = ground (arith, h)

-- What a search with result `f` makes of a call that would write.
abbrev pub Refused : (sys : System) → FdTable → sys.Os → Found → Opened sys.Os → Type 0
Refused sys t os f r =
    (r.table ≡ t)
    × (r.os ≡ os)
    × (((r.ret ≡ dwarfs_io_error) × (r.errno ≡ some erofs))
        ⊎ ((f.ret ≡ dwarfs_s_link_outside) × (r.ret ≡ dwarfs_s_link_outside) × (r.lnk ≡ f.lnk)))

settle_read_only :
    (sys : System) (t : FdTable) (os : sys.Os) (flags : OpenFlags) (f : Found)
    → wants_write flags ≡ true
    → Refused sys t os f (settle sys t os flags f)
unfolding settle
settle_read_only sys t os flags f w = elim (Bool-cases (f.ret ==ℤ dwarfs_io_continue)) [
  | inl e ↦ rw (e, w) (refl, refl, inl (refl, refl))
  | inr e ↦
      rw (e, w)
        (elim (Bool-cases (f.ret ==ℤ dwarfs_s_link_outside)) [
          | inl o ↦ rw o (refl, refl, inr ((==ℤ_iff f.ret dwarfs_s_link_outside).0 o, refl, refl))
          | inr o ↦ rw o (refl, refl, inl (refl, refl))
        ])
]

-- A call with O_RDWR, O_WRONLY, O_TRUNC or O_CREAT is refused with EROFS, whatever the search found, unless the search left
-- the file system by a link; then the caller is told so and given the link. Either way the table and
-- the system are as they were.
pub open_path_read_only :
    (sys : System) (root : Root) (t : FdTable) (os : sys.Os) (path : Bytes) (flags : OpenFlags)
    (lnk : Bytes)
    → MayWrite flags
    → Refused sys t os
        (root.stat path (not flags.o_nofollow) lnk)
        (open_path sys root t os path flags lnk)
unfolding open_path
open_path_read_only sys root t os path flags lnk w =
    settle_read_only sys t os flags _ (MayWrite-wants_write flags w)
