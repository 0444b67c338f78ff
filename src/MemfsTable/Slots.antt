-- ===== src/MemfsTable/Slots.antt =====
-- The order of the table and the index that `insert_auto` picks.
use libdwarfs.Prelude.{
  ℕ, ◌+◌, ◌<◌, ◌≤◌, ◌≡◌, refl, true, false, none, some, [], ◌∷◌, ◌⊎◌, inl, inr, ltb, ◌==◌,
  if◌then◌else◌, arith, Bool-cases,
}
use libdwarfs.Prelude.Maps.{find, erase, is_some, nat_eq}
use libdwarfs.Memfs.State.{Memfs, set_root_inode}
use libdwarfs.MemfsTable.{MemfsTable, place, insert, next_index, insert_auto, get, remove, check}
use libdwarfs.MemfsTable.Inode.{fs_ino_from_fs_and_ino}

-- The keys rise from `n` on.
abbrev pub Above : ℕ → MemfsTable → Type 0
Above n [] = Unit {0}
Above n ((k, w) ∷ t) = (n ≤ k) × Above (k + 1) t

abbrev pub IsOrdered : MemfsTable → Type 0
IsOrdered t = Above 0 t

Above-mono : (m n : ℕ) (t : MemfsTable) → m ≤ n → Above n t → Above m t
Above-mono m n [] h a = tt
Above-mono m n ((k, w) ∷ t) h a = (omega arith, a.1)

find_below : (i n : ℕ) (t : MemfsTable) → i < n → Above n t → find i t ≡ none
unfolding find
find_below i n [] h a = refl
find_below i n ((k, w) ∷ t) h a = ground (arith, find_below i (k + 1) t)

place-Above :
    (n k : ℕ) (v : Memfs) (t : MemfsTable)
    → n ≤ k
    → find k t ≡ none
    → Above n t
    → Above n (place k v t)
unfolding place find
place-Above n k v [] h e a = (h, tt)
place-Above n k v ((j, w) ∷ t) h e a = ground (arith, place-Above (j + 1) k v t)

pub find-place :
    (i k : ℕ) (v : Memfs) (t : MemfsTable)
    → find k t ≡ none
    → find i (place k v t) ≡ (if k == i then some v else find i t)
unfolding place find
find-place i k v [] e = refl
find-place i k v ((j, w) ∷ t) e = ground (arith, find-place i k v t)

pub erase-Above : (n i : ℕ) (t : MemfsTable) → Above n t → Above n (erase i t)
unfolding erase
erase-Above n i [] a = tt
erase-Above n i ((k, w) ∷ t) a =
    ground (arith, erase-Above (k + 1) i t, Above-mono n (k + 1) (erase i t))

next_index-le : (n : ℕ) (t : MemfsTable) → n ≤ next_index n t
unfolding next_index
next_index-le n [] = omega arith
next_index-le n ((k, w) ∷ t) = ground (arith, next_index-le n t, next_index-le (n + 1) t)

next_index_free : (m n : ℕ) (t : MemfsTable) → Above m t → find (next_index n t) t ≡ none
unfolding next_index find
next_index_free m n [] a = refl
next_index_free m n ((k, w) ∷ t) a = ground (
  arith,
  find_below n (k + 1) t,
  next_index-le n t,
  next_index-le (n + 1) t,
  next_index_free (k + 1) n t,
  next_index_free (k + 1) (n + 1) t,
)

next_index_least :
    (n i : ℕ) (t : MemfsTable) → n ≤ i → i < next_index n t → is_some (find i t) ≡ true
unfolding next_index find
next_index_least n i [] h k = absurd (omega arith)
next_index_least n i ((k, w) ∷ t) h lt =
    ground (arith, next_index_least n i t, next_index_least (n + 1) i t)

-- Between calls the table is ordered: every operation that writes it keeps the order of the keys.
pub table-IsOrdered :
    (t : MemfsTable) (index : ℕ) (fs : Memfs)
    → IsOrdered t
    → IsOrdered (insert t index fs).0 × IsOrdered (insert_auto t fs).0 × IsOrdered (remove t index)
unfolding insert insert_auto remove
table-IsOrdered t index fs o = (
  ground (arith, place-Above 0 index fs t),
  ground (
    arith,
    place-Above 0 (next_index 1 t) (set_root_inode fs (fs_ino_from_fs_and_ino (next_index 1 t) 0))
        t,
  ),
  erase-Above 0 index t o,
)

-- On an ordered table, `insert_auto` gives 0 exactly if the slots 1 to 7 are taken, and then changes
-- nothing. Otherwise it gives the least free one of them, that slot then holds the file system with
-- its new root inode, and every other slot is as it was.
pub insert_auto_lem :
    (t : MemfsTable) (fs : Memfs)
    → IsOrdered t
    → let r = insert_auto t fs in
      let fs' = set_root_inode fs (fs_ino_from_fs_and_ino r.1 0) in
      ((r.1 ≡ 0) × (r.0 ≡ t) × ((i : ℕ) → 1 ≤ i → i ≤ 7 → check t i ≡ true))
      ⊎ ((1 ≤ r.1)
          × (r.1 ≤ 7)
          × (check t r.1 ≡ false)
          × ((i : ℕ) → 1 ≤ i → i < r.1 → check t i ≡ true)
          × ((i : ℕ) → get r.0 i ≡ (if r.1 == i then some fs' else get t i)))
unfolding insert_auto insert check get
insert_auto_lem t fs o = elim (Bool-cases (ltb 7 (next_index 1 t))) [
  | inl full ↦ inl (ground arith, ground arith, λ i h k. next_index_least 1 i t h (ground arith))
  | inr room ↦ inr (
    ground (arith, next_index-le 1 t),
    ground arith,
    ground (arith, next_index_free 0 1 t),
    λ i h k. next_index_least 1 i t h (ground arith),
    λ i. ground (
      arith,
      next_index_free 0 1 t,
      find-place i (next_index 1 t) (set_root_inode fs (fs_ino_from_fs_and_ino (next_index 1 t) 0))
          t,
    ),
  )
]
