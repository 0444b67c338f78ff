-- ===== src/Dirent/Stream.antt =====
-- A directory stream through the table: opendir, readdir, and the loop of tebako_scandir.
use libdwarfs.Prelude.{
  drop-at, drop-ge, ℕ, ℤ, pos, zero, suc, ◌+◌, ◌-◌, ◌^◌, ◌<◌, ◌≤◌, ◌≡◌, refl, Bool, true, Option,
  none, some, List, [], ◌∷◌, length, drop, get_elem?, arith, if◌then◌else◌, Bool-cases, inl, inr,
  ltb,
}
use libdwarfs.Prelude.Maps.{find, nat_eq, find-assign_self}
use libdwarfs.Errno.{Errno, later, dwarfs_io_continue}
use libdwarfs.Root.{Root, Dirent}
use libdwarfs.Fd.State.{FdTable}
use libdwarfs.Dirent.{DsTable, readdir, opendir}
use libdwarfs.Dirent.Cache.{Ds, new_ds, readdir_ds}
use libdwarfs.Dirent.Listed.{
  HasEntries, IsCoherent, loaded, load_cache_lem, loaded-IsCoherent, readdir_ds_lem,
}

-- A directory stream at position `p`.
pub record Streams (root : Root) (fds : FdTable) (entries : List Dirent) (p : ℕ) (t : DsTable)
    (dirp : ℕ) : Type 0 where
  pub ds : Ds
  pub found : find dirp t ≡ some ds
  pub names : HasEntries root fds ds.vfd entries
  pub start : ℕ
  pub coherent : IsCoherent entries start ds
  pub position : ds.dir_position ≡ pos p

-- From position `p`, readdir gives the entry at `p`, or no entry at the end of the directory, and the
-- stream then stands at the next position, or still at the end. This holds wherever the cache stands
-- and however many entries there are, below 2^31.
pub readdir_lem :
    (root : Root) (fds : FdTable) (entries : List Dirent) (t : DsTable) (dirp p : ℕ)
    → Streams root fds entries p t dirp
    → p < 2 ^ 63
    → let r = readdir root fds t dirp in
      (r.1.value ≡ (dwarfs_io_continue, get_elem? entries p))
      × Streams root fds entries (if ltb p (length entries) then p + 1 else p) r.0 dirp
unfolding readdir
readdir_lem root fds entries t dirp p s h =
    let r = readdir_ds_lem root fds entries s.ds s.start p s.names s.coherent s.position h in
    (
      rw (s.found, readdir) (ground (arith, r.ret, r.entry)),
      rw (s.found, readdir)
          (record {
            ds = (readdir_ds root fds s.ds).ds;
            found = find-assign_self dirp (readdir_ds root fds s.ds).ds t;
            names = rw r.same_vfd s.names;
            start = r.start;
            coherent = r.coherent;
            position = r.position;
          }),
    )

-- opendir on a directory's descriptor gives a stream at its first entry, and the number of entries.
pub opendir_lem :
    (root : Root) (fds : FdTable) (entries : List Dirent) (t : DsTable) (address : ℕ) (vfd : ℤ)
    → HasEntries root fds vfd entries
    → let r = opendir root fds t address vfd in
      (r.1.value ≡ (address, length entries)) × Streams root fds entries 0 r.0 address
unfolding opendir
opendir_lem root fds entries t address vfd d =
    let e = load_cache_lem root fds entries (new_ds vfd) 0 true d (omega arith) in
    (
      rw (e, opendir) (unfold loaded in refl),
      rw (e, opendir)
          (record {
            ds = loaded root fds entries (new_ds vfd) 0 true;
            found = find-assign_self address (loaded root fds entries (new_ds vfd) 0 true) t;
            names = unfold loaded in d;
            start = 0;
            coherent = loaded-IsCoherent root fds entries (new_ds vfd) 0 true (omega arith);
            position = unfold loaded in refl;
          }),
    )

-- list[n++] = p, in front of what the rest of the loop appends.
unfoldable pub push_entry : Dirent → Option (List Dirent) → Option (List Dirent)
push_entry ent none = none
push_entry ent (some list) = some (ent ∷ list)

-- The loop of tebako_scandir in src/dir-io.cpp: internal_readdir until there is no entry, `sel` where
-- it is given. The copies of the entries, in order; allocation succeeds. `none` is fuel run out.
unfoldable pub scan_loop : ℕ → Root → FdTable → DsTable → ℕ → (Dirent → Bool) → Option (List Dirent)
scan_loop zero root fds t dirp sel = none
scan_loop (suc fuel) root fds t dirp sel =
    let r = readdir root fds t dirp in
    let rest = scan_loop fuel root fds r.0 dirp sel in
    elim r.1.value.1 [ none ↦ some [] | some ent ↦ if sel ent then push_entry ent rest else rest ]

-- What the calls of readdir in the loop leave in errno.
unfoldable pub scan_errno : ℕ → Root → FdTable → DsTable → ℕ → Option Errno
scan_errno zero root fds t dirp = none
scan_errno (suc fuel) root fds t dirp =
    let r = readdir root fds t dirp in
    let rest = scan_errno fuel root fds r.0 dirp in
    elim r.1.value.1 [ none ↦ r.1.errno | some ent ↦ later r.1.errno rest ]

-- The specification: the entries that `sel` takes, in order.
abbrev pub selected : (Dirent → Bool) → List Dirent → List Dirent
selected sel [] = []
selected sel (x ∷ xs) = if sel x then x ∷ selected sel xs else selected sel xs

length-selected : (sel : Dirent → Bool) (xs : List Dirent) → length (selected sel xs) ≤ length xs
length-selected sel [] = omega arith
length-selected sel (x ∷ xs) = ground (arith, length-selected sel xs)

scan_from :
    (fuel : ℕ) (root : Root) (fds : FdTable) (entries : List Dirent) (t : DsTable) (dirp p : ℕ)
    (sel : Dirent → Bool)
    → Streams root fds entries p t dirp
    → p ≤ length entries
    → length entries - p < fuel
    → scan_loop fuel root fds t dirp sel ≡ some (selected sel (drop p entries))
unfolding scan_loop push_entry
scan_from zero root fds entries t dirp p sel s h f = elim f [ ]
scan_from (suc fuel) root fds entries t dirp p sel s h f =
    let (now, next) = readdir_lem root fds entries t dirp p s (omega (arith, s.names.small, h)) in
    elim (Bool-cases (ltb p (length entries))) [
      | inl more ↦
          let (x, e, d) = drop-at p entries (ground arith) in
          let later =
            scan_from fuel root fds entries (readdir root fds t dirp).0 dirp (p + 1) sel
              (rw more at next) (ground arith) (ground arith) in
          rw (now, scan_loop) (rw (e, d) (ground (arith, later)))
      | inr past ↦
          let (e, d) = drop-ge p entries (ground arith) in rw (now, scan_loop) (rw (e, d) refl)
    ]

-- After opendir the loop of scandir, with one more round than there are entries, copies exactly the
-- entries that `sel` takes, in the order of the directory. They fit the array, whose size is the number
-- that opendir reported.
pub scan_loop_lem :
    (root : Root) (fds : FdTable) (entries : List Dirent) (t : DsTable) (address : ℕ) (vfd : ℤ)
    (sel : Dirent → Bool) (fuel : ℕ)
    → HasEntries root fds vfd entries
    → length entries < fuel
    → let r = opendir root fds t address vfd in
      (scan_loop fuel root fds r.0 address sel ≡ some (selected sel entries))
      × (length (selected sel entries) ≤ r.1.value.1)
scan_loop_lem root fds entries t address vfd sel fuel d f =
    let (opened, stream) = opendir_lem root fds entries t address vfd d in
    (
      scan_from fuel root fds entries (opendir root fds t address vfd).0 address 0 sel stream
          (omega arith) (omega arith),
      rw opened (length-selected sel entries),
    )
