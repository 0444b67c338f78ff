-- ===== src/Dirent/Listed.antt =====
-- Reading a directory against the list of its entries: the cache does not show.
use libdwarfs.Prelude.{
  ℕ, ℤ, pos, zero, suc, ◌+◌, ◌-◌, ◌^◌, ◌<◌, ◌≤◌, ◌≡◌, refl, ap, ◌∙◌, Bool, true, false, Option,
  none, some, List, [], ◌∷◌, ◌++◌, length, take, drop, get_elem?, min, length-take, length-drop,
  arith, if◌then◌else◌, Bool-cases, inl, inr, ltb,
}
use libdwarfs.Prelude.Maps.{int_eq, nat_eq}
use libdwarfs.Errno.{Errno, dwarfs_io_continue}
use libdwarfs.Root.{Root, Dirent}
use libdwarfs.Fd.State.{FdTable}
use libdwarfs.Fd.Seek.{to_u64}
use libdwarfs.Fd.Read as FdRead
use libdwarfs.Dirent.Cache.{
  Ds, Read, dir_cache_size, overwrite, load_cache, next_entry, is_outside, readdir_ds,
}

-- The descriptor names a directory with these entries.
pub record HasEntries (root : Root) (fds : FdTable) (vfd : ℤ) (entries : List Dirent) : Type 0 where
  pub small : length entries < 2 ^ 31
  pub lists :
      (start : ℕ)
      → start ≤ length entries
      → FdRead.readdir root fds vfd (pos start) dir_cache_size ≡ record {
        ret = pos 0;
        entries = take dir_cache_size (drop start entries);
        dir_size = some (length entries);
        errno = none;
      }

-- The cache holds the entries from `start` on, as many as it takes or there are.
pub record IsCoherent (entries : List Dirent) (start : ℕ) (ds : Ds) : Type 0 where
  pub total : ds.dir_size ≡ length entries
  pub begins : ds.cache_start ≡ pos start
  pub in_range : start ≤ length entries
  pub full : ds.cache_size ≡ min dir_cache_size (length entries - start)
  pub holds : (i : ℕ) → i < ds.cache_size → get_elem? ds.cache i ≡ get_elem? entries (start + i)

get_elem?-take {ℓ} :
    {A : Type ℓ} (n i : ℕ) (xs ys : List A)
    → i < n
    → i < length xs
    → get_elem? (take n xs ++ ys) i ≡ get_elem? xs i
get_elem?-take zero i xs ys h k = elim h [ ]
get_elem?-take (suc n) i [] ys h k = elim k [ ]
get_elem?-take (suc n) zero (x ∷ xs) ys h k = refl
get_elem?-take (suc n) (suc i) (x ∷ xs) ys h k =
    get_elem?-take n i xs ys (omega arith) (omega arith)

get_elem?-drop {ℓ} :
    {A : Type ℓ} (s i : ℕ) (xs : List A) → get_elem? (drop s xs) i ≡ get_elem? xs (s + i)
get_elem?-drop zero i xs = ap (get_elem? xs) (omega arith)
get_elem?-drop (suc s) i [] = refl
get_elem?-drop (suc s) i (x ∷ xs) =
    let e : suc s + i ≡ suc (s + i) = omega arith in rw e (get_elem?-drop s i xs)

module _ (root : Root) (fds : FdTable) (entries : List Dirent) where
  unfoldable pub loaded : Ds → ℕ → Bool → Ds
  loaded ds start set_pos =
      let found = take dir_cache_size (drop start entries) in
      record ds {
        cache = overwrite found ds.cache;
        dir_size = length entries;
        dir_position = if set_pos then pos start else ds.dir_position;
        cache_start = pos start;
        cache_size = length found;
      }

  pub load_cache_lem :
      (ds : Ds) (start : ℕ) (set_pos : Bool)
      → HasEntries root fds ds.vfd entries
      → start ≤ length entries
      → load_cache root fds ds (pos start) set_pos ≡ (pos 0, none, loaded ds start set_pos)
  unfolding load_cache loaded
  load_cache_lem ds start set_pos h k = rw (h.lists start k)

  pub loaded-IsCoherent :
      (ds : Ds) (start : ℕ) (set_pos : Bool)
      → start ≤ length entries
      → IsCoherent entries start (loaded ds start set_pos)
  unfolding loaded
  loaded-IsCoherent ds start set_pos k =
      let size = length-take dir_cache_size (drop start entries) in
      let left = length-drop start entries in
      record {
        total = refl;
        begins = refl;
        in_range = k;
        full = omega (arith, size, left);
        holds = λ i h.
            get_elem?-take dir_cache_size i (drop start entries)
              (drop (length (take dir_cache_size (drop start entries))) ds.cache)
              (omega (arith, size)) (omega (arith, size))
            ∙ get_elem?-drop start i entries;
      }

  next_entry_lem :
      (ds : Ds) (start p : ℕ) (e : Option Errno)
      → IsCoherent entries start ds
      → ds.dir_position ≡ pos p
      → start ≤ p
      → p < start + ds.cache_size
      → length entries < 2 ^ 31
      → (next_entry ds e).entry ≡ get_elem? entries p
  unfolding next_entry
  next_entry_lem ds start p e c at h k small =
      let index : to_u64 ds.dir_position - to_u64 ds.cache_start ≡ p - start =
        ground (arith, c.begins, c.in_range, c.full) in
      let back : start + (p - start) ≡ p = omega arith in
      ap (get_elem? ds.cache) index
      ∙ c.holds (p - start) (omega arith)
      ∙ ap (get_elem? entries) back

  -- What a read at position `p` gives and leaves.
  pub record ReadsAt (vfd : ℤ) (p : ℕ) (r : Read) : Type 0 where
    pub ret : r.ret ≡ dwarfs_io_continue
    pub entry : r.entry ≡ get_elem? entries p
    pub position : r.ds.dir_position ≡ pos (if ltb p (length entries) then p + 1 else p)
    pub same_vfd : r.ds.vfd ≡ vfd
    pub start : ℕ
    pub coherent : IsCoherent entries start r.ds

  next_entry-ReadsAt :
      (ds : Ds) (start p : ℕ) (e : Option Errno)
      → IsCoherent entries start ds
      → ds.dir_position ≡ pos p
      → start ≤ p
      → p < start + ds.cache_size
      → length entries < 2 ^ 31
      → ReadsAt ds.vfd p (next_entry ds e)
  next_entry-ReadsAt ds start p e c at h k small = record {
    ret = unfold next_entry in refl;
    entry = next_entry_lem ds start p e c at h k small;
    position = unfold next_entry in ground (arith, c.full, c.in_range);
    same_vfd = unfold next_entry in refl;
    start = start;
    coherent =
        unfold next_entry in
        record {
          total = c.total;
          begins = c.begins;
          in_range = c.in_range;
          full = c.full;
          holds = c.holds;
        };
  }

  outside_iff :
      (ds : Ds) (start p : ℕ)
      → IsCoherent entries start ds
      → ds.dir_position ≡ pos p
      → p < length entries
      → length entries < 2 ^ 31
      → is_outside ds ≡ false
      → (start ≤ p) × (p < start + ds.cache_size)
  unfolding is_outside
  outside_iff ds start p c at k small h =
      (ground (arith, c.begins, c.in_range, c.full), ground (arith, c.begins, c.in_range, c.full))

  get_elem?-ge : (i : ℕ) (xs : List Dirent) → length xs ≤ i → get_elem? xs i ≡ none
  get_elem?-ge i [] h = refl
  get_elem?-ge zero (x ∷ xs) h = elim h [ ]
  get_elem?-ge (suc i) (x ∷ xs) h = get_elem?-ge i xs (omega arith)

  at_end :
      (ds : Ds) (start p : ℕ)
      → IsCoherent entries start ds
      → ds.dir_position ≡ pos p
      → p < 2 ^ 63
      → length entries ≤ p
      → ReadsAt ds.vfd p (readdir_ds root fds ds)
  at_end ds start p c at small h = rw stays (record {
    ret = refl;
    entry = cc (get_elem?-ge p entries h);
    position = ground arith;
    same_vfd = refl;
    start = start;
    coherent = c;
  })
    where
      stays :
          readdir_ds root fds ds
          ≡ record { ds = ds; ret = dwarfs_io_continue; entry = none; errno = none }
      stays = unfold readdir_ds in ground (arith, c.total)

  from_cache :
      (ds : Ds) (start p : ℕ)
      → IsCoherent entries start ds
      → ds.dir_position ≡ pos p
      → p < length entries
      → length entries < 2 ^ 31
      → is_outside ds ≡ false
      → readdir_ds root fds ds ≡ next_entry ds none
  unfolding readdir_ds
  from_cache ds start p c at h small inside = ground (arith, c.total)

  from_disk :
      (ds : Ds) (start p : ℕ)
      → HasEntries root fds ds.vfd entries
      → IsCoherent entries start ds
      → ds.dir_position ≡ pos p
      → p < length entries
      → is_outside ds ≡ true
      → readdir_ds root fds ds ≡ next_entry (loaded ds p false) none
  unfolding readdir_ds
  from_disk ds start p d c at h outside =
      ground (arith, c.total, d.small, load_cache_lem ds p false d (omega arith))

  pub readdir_ds_lem :
      (ds : Ds) (start p : ℕ)
      → HasEntries root fds ds.vfd entries
      → IsCoherent entries start ds
      → ds.dir_position ≡ pos p
      → p < 2 ^ 63
      → ReadsAt ds.vfd p (readdir_ds root fds ds)
  unfolding loaded
  readdir_ds_lem ds start p d c at h = elim (Bool-cases (ltb p (length entries))) [
    | inr past ↦ at_end ds start p c at h (ground arith)
    | inl more ↦
        let k : p < length entries = ground arith in
        elim (Bool-cases (is_outside ds)) [
          | inr inside ↦
              let near = outside_iff ds start p c at k d.small inside in
              rw (from_cache ds start p c at k d.small inside)
                (next_entry-ReadsAt ds start p none c at near.0 near.1 d.small)
          | inl outside ↦
              let fresh = loaded-IsCoherent ds p false (omega arith) in
              rw (from_disk ds start p d c at k outside) (
                next_entry-ReadsAt (loaded ds p false) p p none fresh (unfold loaded in at)
                  (omega arith) (omega (arith, fresh.full)) d.small)
        ]
  ]
