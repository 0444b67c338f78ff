-- ===== src/Dl/Errors.antt =====
-- What a load leaves for tebako_dlerror, and the second load of a path.
use libdwarfs.Prelude.{
  subst, ℕ, ℤ, pos, negsuc, ◌≡◌, ◌≢◌, refl, sym, ◌∙◌, false, Option, none, some, [], ◌++◌, Bytes,
  ascii, take, ◌⊎◌, inl, inr, Bool-cases, Option-cases, ◌==◌, ltb_ℤ, ◌==ℤ◌, ==ℤ_iff, arith,
}
use libdwarfs.Prelude.Maps.{Map, find, assign, bytes_key, find-assign_self}
use libdwarfs.Root.{Root}
use libdwarfs.System.{System}
use libdwarfs.Paths.Parts.{parent_path}
use libdwarfs.Cwd.{Cwd}
use libdwarfs.Fd.Seek.{to_u64}
use libdwarfs.Dl.Foreign.{Host, open_file, stat_file}
use libdwarfs.Dl.{
  Stash, Loader, Copied, map_name, copy, keep_copy, copy_open, close_in, extract, map2file,
  tebako_dlerror,
}

-- The outcome of a load of `path` with this table and error: the table keeps the copy, or an error is
-- kept for tebako_dlerror.
pub data IsLoaded {Os : Type 0} (table : Map Bytes Bytes) (stash : Stash) (path mapped : Bytes)
    : Bytes × Loader Os → Type 0 where
  kept :
      {s : Loader Os}
      → s.table ≡ assign path mapped table
      → s.stash ≡ stash
      → IsLoaded table stash path mapped (mapped, s)
  failed :
      {s : Loader Os} {e : ℤ}
      → s.table ≡ table
      → s.stash ≡ record { err = e; fname = path }
      → e ≢ pos 0
      → IsLoaded table stash path mapped ([], s)

-- So, if the load ends.
abbrev pub Ends :
    {Os : Type 0} → Map Bytes Bytes → Stash → Bytes → Bytes → Option (Bytes × Loader Os) → Type 0
Ends table stash path mapped none = Unit {0}
Ends table stash path mapped (some r) = IsLoaded table stash path mapped r

some_inj : {A : Type 0} {a b : A} → ◌≡◌ {A = Option A} (some a) (some b) → a ≡ b
some_inj h = cc

-- The next call of tebako_dlerror and the one after it.
abbrev pub Reports : {Os : Type 0} → (ℤ → Bytes) → Bytes → Bytes → Loader Os → Type 0
Reports strerror dlerror path s =
    (e : ℤ) × (e ≢ pos 0)
    × (let one = tebako_dlerror strerror s dlerror in
        (one.0 ≡ take 5119 (path ++ ascii ": cannot open shared object file: " ++ strerror e))
        × ((tebako_dlerror strerror one.1 dlerror).0 ≡ dlerror))

module _ (sys : System) (host : Host sys) (root : Root) (cwd : Cwd) where
  open sys use {Os}

  keep_copy-IsLoaded :
      (s : Loader Os) (c : Copied Os) (fh_out : ℕ) (path mapped : Bytes)
      → IsLoaded s.table s.stash path mapped (keep_copy sys host root cwd s c fh_out path mapped)
  unfolding keep_copy
  keep_copy-IsLoaded s c fh_out path mapped = elim (Bool-cases (c.left == 0)) [
    | inl e ↦ rw e (kept refl refl)
    | inr e ↦ rw e (failed refl refl (λ q. cc))
  ]

  close_in-IsLoaded :
      (table : Map Bytes Bytes) (stash : Stash) (path mapped : Bytes) (r : Bytes × Loader Os)
      (fh_in : ℤ)
      → IsLoaded table stash path mapped r
      → IsLoaded table stash path mapped (close_in sys host root cwd r fh_in)
  unfolding close_in
  close_in-IsLoaded table stash path mapped r fh_in (kept t q) = kept t q
  close_in-IsLoaded table stash path mapped r fh_in (failed t q n) = failed t q n

  copy_open-IsLoaded :
      (fuel : ℕ) (s : Loader Os) (fh_in : ℤ) (path mapped : Bytes)
      → Ends s.table s.stash path mapped (copy_open sys host root cwd fuel s fh_in path mapped)
  unfolding copy_open
  copy_open-IsLoaded fuel s fh_in path mapped =
      let (ret, st) = stat_file sys host s.fds s.os fh_in in
      elim (Bool-cases (ret ==ℤ negsuc 0)) [
        | inl bad ↦ rw (copy_open, bad) (failed refl refl (λ q. cc))
        | inr good ↦ elim (Option-cases (host.create s.os mapped st.st_mode)) [
          | inl n ↦ rw (copy_open, good, n) (failed refl refl (λ q. cc))
          | inr ((fh_out, os), o) ↦
              elim (Option-cases
                (copy sys host root cwd fuel s.fds os fh_in fh_out (to_u64 st.st_size))) [
                  | inl n ↦ rw (copy_open, good, o, n) tt
                  | inr (c, e) ↦
                      rw (copy_open, good, o, e) (keep_copy-IsLoaded s c fh_out path mapped)
                ]
        ]
      ]

  extract-IsLoaded :
      (fuel : ℕ) (s : Loader Os) (path mapped : Bytes)
      → Ends s.table s.stash path mapped (extract sys host root cwd fuel s path mapped)
  unfolding extract
  extract-IsLoaded fuel s path mapped =
      let (fds, os, fh_in) = open_file sys host root cwd s.fds s.os path in
      let opened : Loader Os = record s { fds = fds; os = os } in
      let done = copy_open-IsLoaded fuel opened fh_in path mapped in
      elim (Bool-cases (ltb_ℤ fh_in (pos 0))) [
        | inl e ↦ rw (extract, e) (failed refl refl (λ q. cc))
        | inr e ↦ elim (Option-cases (copy_open sys host root cwd fuel opened fh_in path mapped)) [
          | inl n ↦ rw (extract, e, n) tt
          | inr (r, o) ↦
              rw (extract, e, o)
                (close_in-IsLoaded s.table s.stash path mapped r fh_in
                  (subst (λ x. Ends s.table s.stash path mapped x) o done))
        ]
      ]

  -- A path that is not in the table: if the load ends, then either it gives the name of the copy, which
  -- the table keeps, and the stash is as it was, or it gives the empty name, the table is as it was, and an
  -- error with the path is left for tebako_dlerror.
  pub map2file_new :
      (fuel : ℕ) (dl_tmpdir : Bytes) (s : Loader Os) (path : Bytes)
      → find path s.table ≡ none
      → Ends s.table s.stash path
          (map_name dl_tmpdir path)
          (map2file sys host root cwd fuel dl_tmpdir s path)
  unfolding map2file
  map2file_new fuel dl_tmpdir s path new =
      let mapped = map_name dl_tmpdir path in
      elim (Option-cases (host.create_directories s.os (parent_path mapped))) [
        | inl n ↦ rw (map2file, new, n) (failed refl refl (λ q. cc))
        | inr (os, o) ↦
            rw (map2file, new, o) (extract-IsLoaded fuel (record s { os = os }) path mapped)
      ]

  abbrev Again : ℕ → Bytes → Bytes → Bytes × Loader Os → Type 0
  Again fuel dl_tmpdir path (ret, s) =
      (map2file sys host root cwd fuel dl_tmpdir s path ≡ some (ret, s)) ⊎ (ret ≡ [])

  again :
      (fuel : ℕ) (dl_tmpdir : Bytes) (table : Map Bytes Bytes) (stash : Stash) (path mapped : Bytes)
      (r : Bytes × Loader Os)
      → IsLoaded table stash path mapped r
      → Again fuel dl_tmpdir path r
  unfolding map2file
  again fuel dl_tmpdir table stash path mapped (ret, s) (kept t q) =
      let found : find path s.table ≡ some mapped = rw t (find-assign_self path mapped table) in
      inl (rw (map2file, found) refl)
  again fuel dl_tmpdir table stash path mapped (ret, s) (failed t q n) = inr refl

  known_again :
      (fuel : ℕ) (dl_tmpdir : Bytes) (s : Loader Os) (path known : Bytes)
      → find path s.table ≡ some known
      → map2file sys host root cwd fuel dl_tmpdir s path ≡ some (known, s)
  unfolding map2file
  known_again fuel dl_tmpdir s path known e = rw (map2file, e) refl

  -- A load that gave a name gives the same name the next time, with any fuel, and then changes nothing: the file is
  -- copied once.
  pub map2file_again :
      (fuel fuel' : ℕ) (dl_tmpdir : Bytes) (s s' : Loader Os) (path ret : Bytes)
      → map2file sys host root cwd fuel dl_tmpdir s path ≡ some (ret, s')
      → ret ≢ []
      → map2file sys host root cwd fuel' dl_tmpdir s' path ≡ some (ret, s')
  map2file_again fuel fuel' dl_tmpdir s s' path ret h n = elim (Option-cases (find path s.table)) [
    | inl new ↦
        elim (again fuel' dl_tmpdir s.table s.stash path (map_name dl_tmpdir path) (ret, s')
          (subst (λ x. Ends s.table s.stash path (map_name dl_tmpdir path) x) h
            (map2file_new fuel dl_tmpdir s path new))) [ inl e ↦ e | inr e ↦ absurd (n e) ]
    | inr (known, e) ↦
        (let same : ◌≡◌ {A = Bytes × Loader Os} (known, s) (ret, s') =
            some_inj (sym (known_again fuel dl_tmpdir s path known e) ∙ h) in
          subst (λ r. map2file sys host root cwd fuel' dl_tmpdir r.1 path ≡ some r) same
            (known_again fuel' dl_tmpdir s path known e))
  ]

  left_error :
      (table : Map Bytes Bytes) (stash : Stash) (path mapped : Bytes) (strerror : ℤ → Bytes)
      (dlerror : Bytes) (r : Bytes × Loader Os)
      → IsLoaded table stash path mapped r
      → mapped ≢ []
      → r.0 ≡ []
      → (r.1.table ≡ table) × Reports strerror dlerror path r.1
  unfolding tebako_dlerror
  left_error table stash path mapped strerror dlerror (ret, s) (kept t q) n z = absurd (n z)
  left_error table stash path mapped strerror dlerror (ret, s) (failed {e = e} t q nonzero) n z =
      let b : (e ==ℤ pos 0) ≡ false = ground (arith, ==ℤ_iff e (pos 0)) in
      (t, (e, nonzero, (rw (q, b) refl, refl)))

  -- A load of a path that is not in the table, and that gives no name, leaves an error other than 0: the
  -- next call of tebako_dlerror gives the text of that error with the path, cut to the room of its buffer,
  -- 5,119 bytes, and the one after that the message of the system.
  pub map2file_error :
      (fuel : ℕ) (dl_tmpdir : Bytes) (s s' : Loader Os) (path : Bytes) (strerror : ℤ → Bytes)
      (dlerror : Bytes)
      → find path s.table ≡ none
      → (map_name dl_tmpdir path) ≢ []
      → map2file sys host root cwd fuel dl_tmpdir s path ≡ some ([], s')
      → (s'.table ≡ s.table) × Reports strerror dlerror path s'
  map2file_error fuel dl_tmpdir s s' path strerror dlerror new n h =
      left_error s.table s.stash path (map_name dl_tmpdir path) strerror dlerror ([], s')
        (subst (λ x. Ends s.table s.stash path (map_name dl_tmpdir path) x) h
          (map2file_new fuel dl_tmpdir s path new))
        n refl
