-- ===== src/Fd/Descriptors.antt =====
-- The table against the system: every entry holds the descriptor that it is named by, and no two
-- entries hold the same one.
use libdwarfs.Prelude.{
  ℕ, ℤ, pos, ◌≡◌, ◌≢◌, Bool, true, false, none, some, Bytes, arith, ◌⊎◌, inl, inr, Bool-cases,
  Option-cases, not, ◌&&◌, ◌||◌, ◌==ℤ◌, ==ℤ_iff,
}
use libdwarfs.Prelude.Maps.{find, assign, erase, int_eq, find-assign, find-erase, find-erase_self}
use libdwarfs.Errno.{dwarfs_io_continue, dwarfs_invalid_fd, emfile}
use libdwarfs.Dwarfs.{Stat, is_dir, is_lnk}
use libdwarfs.Root.{Root, Found}
use libdwarfs.System.{System, IsPosix}
use libdwarfs.Fd.State.{Fd, FdTable, store, destroy, close_fd, is_valid_file_descriptor, fstat}
use libdwarfs.Fd.Open.{
  OpenFlags, wants_write, take_descriptor, settle, open_path, open_in, openat, refuse, x_ok,
}

pub record Backed (sys : System) (os : sys.Os) (vfd : ℤ) (fd : Fd) : Type 0 where
  pub number : ℕ
  pub named : vfd ≡ pos number
  pub held : fd.handle ≡ some number
  pub is_open : sys.is_open os number ≡ true

abbrev pub IsBacked : (sys : System) → FdTable → sys.Os → Type 0
IsBacked sys t os = (vfd : ℤ) (fd : Fd) → find vfd t ≡ some fd → Backed sys os vfd fd

-- The search found something that these flags may open.
abbrev pub admits : OpenFlags → Found → Bool
admits flags f =
    f.ret ==ℤ dwarfs_io_continue
    && (not (wants_write flags)
        && ((is_dir f.st.st_mode || not flags.o_directory)
            && not (is_lnk f.st.st_mode && flags.o_nofollow)))

abbrev pub new_entry : Found → ℕ → Fd
new_entry f n = record { st = f.st; position = 0; lock = 0; handle = some n }

module _ (sys : System) (posix : IsPosix sys) where
  open sys use {Os, dup, close}

  pub fresh_free :
      (t : FdTable) (os os' : Os) (n : ℕ)
      → IsBacked sys t os
      → dup os ≡ some (n, os')
      → find (pos n) t ≡ none
  fresh_free t os os' n b d = elim (Option-cases (find (pos n) t)) [
    | inl e ↦ e
    | inr (fd, e) ↦
        let k = b (pos n) fd e in ground (arith, k.named, k.is_open, posix.dup_fresh os os' n d)
  ]

  stored-IsBacked :
      (t : FdTable) (os os' : Os) (n : ℕ) (f : Found)
      → IsBacked sys t os
      → dup os ≡ some (n, os')
      → IsBacked sys (assign (pos n) (new_entry f n) t) os'
  stored-IsBacked t os os' n f b d vfd fd h = elim (Bool-cases (pos n ==ℤ vfd)) [
    | inl q ↦ record {
      number = n;
      named = ground (arith, ==ℤ_iff (pos n) vfd);
      held = ground (arith, find-assign (pos n) vfd (new_entry f n) t);
      is_open = ground (arith, posix.dup_opens os os' n n d);
    }
    | inr q ↦
        let k = b vfd fd (ground (arith, find-assign (pos n) vfd (new_entry f n) t)) in
        record {
          number = k.number;
          named = k.named;
          held = k.held;
          is_open = ground (arith, k.is_open, posix.dup_opens os os' n k.number d);
        }
  ]

  pub take_descriptor-some :
      (t : FdTable) (os os' : Os) (n : ℕ) (f : Found)
      → IsBacked sys t os
      → dup os ≡ some (n, os')
      → take_descriptor sys t os f ≡ record {
        ret = pos n;
        lnk = f.lnk;
        errno = f.errno;
        table = assign (pos n) (new_entry f n) t;
        os = os';
      }
  unfolding take_descriptor store destroy
  take_descriptor-some t os os' n f b d =
      rw (d, take_descriptor) (rw (fresh_free t os os' n b d, destroy))

  take_descriptor-none :
      (t : FdTable) (os : Os) (f : Found)
      → dup os ≡ none
      → take_descriptor sys t os f ≡ refuse sys t os f.lnk emfile
  unfolding take_descriptor
  take_descriptor-none t os f d = rw (d, take_descriptor)

  take_descriptor-IsBacked :
      (t : FdTable) (os : Os) (f : Found)
      → IsBacked sys t os
      → IsBacked sys (take_descriptor sys t os f).table (take_descriptor sys t os f).os
  take_descriptor-IsBacked t os f b = elim (Option-cases (dup os)) [
    | inl e ↦ rw (take_descriptor-none t os f e) b
    | inr ((n, os'), e) ↦
        rw (take_descriptor-some t os os' n f b e) (stored-IsBacked t os os' n f b e)
  ]

  pub erased-IsBacked :
      (t : FdTable) (os : Os) (vfd : ℤ) (fd : Fd)
      → IsBacked sys t os
      → find vfd t ≡ some fd
      → IsBacked sys (erase vfd t) (destroy sys (some fd) os)
  unfolding destroy
  erased-IsBacked t os vfd fd b e j fd' h = elim (Bool-cases (vfd ==ℤ j)) [
    | inl q ↦ absurd (ground (arith, find-erase vfd j t))
    | inr q ↦
        let gone = b vfd fd e in
        let k = b j fd' (ground (arith, find-erase vfd j t)) in
        record {
          number = k.number;
          named = k.named;
          held = k.held;
          is_open =
              rw (gone.held, destroy)
                (ground (
                  arith,
                  k.is_open,
                  k.named,
                  gone.named,
                  ==ℤ_iff vfd j,
                  posix.close_closes os gone.number k.number,
                ));
        }
  ]

  -- Every branch but one leaves the state.
  settle_cases :
      (t : FdTable) (os : Os) (flags : OpenFlags) (f : Found)
      → (settle sys t os flags f ≡ take_descriptor sys t os f)
        ⊎ (((settle sys t os flags f).table ≡ t) × ((settle sys t os flags f).os ≡ os))
  unfolding settle
  settle_cases t os flags f = elim (Bool-cases (admits flags f)) [
    | inl h ↦ inl (ground arith)
    | inr h ↦ inr (ground arith, ground arith)
  ]

  settle-IsBacked :
      (t : FdTable) (os : Os) (flags : OpenFlags) (f : Found)
      → IsBacked sys t os
      → IsBacked sys (settle sys t os flags f).table (settle sys t os flags f).os
  settle-IsBacked t os flags f b = elim (settle_cases t os flags f) [
    | inl e ↦ rw e (take_descriptor-IsBacked t os f b)
    | inr (e, e') ↦ rw (e, e') b
  ]

  open_in-IsBacked :
      (root : Root) (t : FdTable) (os : Os) (st : Stat) (path : Bytes) (flags : OpenFlags)
      (lnk : Bytes)
      → IsBacked sys t os
      → IsBacked sys
          (open_in sys root t os st path flags lnk).table
          (open_in sys root t os st path flags lnk).os
  unfolding open_in
  open_in-IsBacked root t os st path flags lnk b = elim (Bool-cases (not (is_dir st.st_mode))) [
    | inl e ↦ rw e b
    | inr e ↦
        rw e (elim (Bool-cases ((root.inode_access st.st_ino x_ok).value ==ℤ dwarfs_io_continue)) [
          | inl e' ↦ rw e' (settle-IsBacked t os flags _ b)
          | inr e' ↦ rw e' b
        ])
  ]

  openat-IsBacked :
      (root : Root) (t : FdTable) (os : Os) (vfd : ℤ) (path : Bytes) (flags : OpenFlags)
      (lnk : Bytes)
      → IsBacked sys t os
      → IsBacked sys
          (openat sys root t os vfd path flags lnk).table
          (openat sys root t os vfd path flags lnk).os
  openat-IsBacked root t os vfd path flags lnk b = elim (Option-cases (fstat t vfd).1) [
    | inl e ↦ unfold openat in rw (e, openat) b
    | inr (st, e) ↦ unfold openat in rw (e, openat) (open_in-IsBacked root t os st path flags lnk b)
  ]

  pub close_fd-IsBacked :
      (t : FdTable) (os : Os) (vfd : ℤ)
      → IsBacked sys t os
      → IsBacked sys (close_fd sys t os vfd).0 (close_fd sys t os vfd).1
  unfolding close_fd
  close_fd-IsBacked t os vfd b = elim (Option-cases (find vfd t)) [
    | inl e ↦ rw (e, close_fd) b
    | inr (fd, e) ↦ rw (e, close_fd) (erased-IsBacked t os vfd fd b e)
  ]

  -- open, openat and close, on every branch, keep each entry named by a system descriptor that it
  -- holds open.
  pub calls-IsBacked :
      (root : Root) (t : FdTable) (os : Os) (vfd : ℤ) (path : Bytes) (flags : OpenFlags)
      (lnk : Bytes)
      → IsBacked sys t os
      → IsBacked sys
          (open_path sys root t os path flags lnk).table
          (open_path sys root t os path flags lnk).os
        × IsBacked sys
            (openat sys root t os vfd path flags lnk).table
            (openat sys root t os vfd path flags lnk).os
        × IsBacked sys (close_fd sys t os vfd).0 (close_fd sys t os vfd).1
  calls-IsBacked root t os vfd path flags lnk b = (
    unfold open_path in settle-IsBacked t os flags _ b,
    openat-IsBacked root t os vfd path flags lnk b,
    close_fd-IsBacked t os vfd b,
  )

  -- Closing an open file gives its descriptor back to the system, takes the entry out, and leaves
  -- every other entry. A second close finds nothing.
  pub close_fd_lem :
      (t : FdTable) (os : Os) (n : ℕ) (fd : Fd)
      → IsBacked sys t os
      → find (pos n) t ≡ some fd
      → let r = close_fd sys t os (pos n) in
        (r.2 ≡ dwarfs_io_continue)
        × (sys.is_open r.1 n ≡ false)
        × (is_valid_file_descriptor r.0 (pos n) ≡ false)
        × ((j : ℤ) → pos n ≢ j → find j r.0 ≡ find j t)
        × ((close_fd sys r.0 r.1 (pos n)).2 ≡ dwarfs_invalid_fd)
  unfolding close_fd destroy is_valid_file_descriptor
  close_fd_lem t os n fd b e =
      let own = b (pos n) fd e in
      let gone = find-erase_self (pos n) t in
      (
        rw (e, close_fd),
        rw (e, close_fd)
            (rw (own.held, destroy)
              (ground (arith, own.named, posix.close_closes os own.number n))),
        rw (e, close_fd) (rw gone),
        λ j ne. rw (e, close_fd) (ground (arith, find-erase (pos n) j t, ==ℤ_iff (pos n) j)),
        rw (e, close_fd) (rw (gone, close_fd)),
      )
