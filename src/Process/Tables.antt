-- ===== src/Process/Tables.antt =====
-- The table of file systems through the calls that mount and unmount.
use libdwarfs.Prelude.{
  ℕ, pos, ◌+◌, ◌≤◌, ◌≡◌, refl, subst, true, Option, some, [], ◌∷◌, Bytes, ◌==ℤ◌, arith, inl, inr,
  Bool-cases, Option-cases,
}
use libdwarfs.Prelude.Maps.{find, assign, is_some, nat_eq, find-assign, find-erase}
use libdwarfs.Dwarfs.{Filesystem}
use libdwarfs.System.{System}
use libdwarfs.Memfs.State.{Memfs}
use libdwarfs.MemfsTable as MemfsTable
use libdwarfs.MemfsTable.{MemfsTable, insert, insert_auto, remove}
use libdwarfs.MemfsTable.Slots.{
  Above, IsOrdered, erase-Above, find-place, table-IsOrdered, insert_auto_lem,
}
use libdwarfs.IoRoot.{new_memfs, load, load_memfs}

-- The keys rise, and there are at most eight of them, from 0 to 7.
pub record IsProper (t : MemfsTable) : Type 0 where
  pub ordered : IsOrdered t
  pub few : (i : ℕ) → MemfsTable.check t i ≡ true → i ≤ 7

assign-Above :
    (n k : ℕ) (v : Memfs) (t : MemfsTable)
    → is_some (find k t) ≡ true
    → Above n t
    → Above n (assign k v t)
unfolding assign find
assign-Above n k v [] h a = absurd (ground arith)
assign-Above n k v ((j, w) ∷ t) h a = ground (arith, assign-Above (j + 1) k v t)

assign-IsProper :
    (t : MemfsTable) (k : ℕ) (v : Memfs)
    → MemfsTable.check t k ≡ true
    → IsProper t
    → IsProper (assign k v t)
unfolding MemfsTable.check
assign-IsProper t k v h p = record {
  ordered = assign-Above 0 k v t h p.ordered;
  few = λ i e. ground (arith, find-assign k i v t, p.few i, p.few k);
}

pub remove-IsProper : (t : MemfsTable) (k : ℕ) → IsProper t → IsProper (remove t k)
unfolding MemfsTable.check remove
remove-IsProper t k p = record {
  ordered = erase-Above 0 k t p.ordered;
  few = λ i e. ground (arith, find-erase k i t, p.few i);
}

pub insert-IsProper :
    (t : MemfsTable) (k : ℕ) (v : Memfs) → k ≤ 7 → IsProper t → IsProper (insert t k v).0
unfolding insert MemfsTable.check
insert-IsProper t k v h p = record {
  ordered = (table-IsOrdered t k v p.ordered).0;
  few = λ i e. ground (arith, find-place i k v t, p.few i);
}

insert_auto-IsProper : (t : MemfsTable) (v : Memfs) → IsProper t → IsProper (insert_auto t v).0
unfolding MemfsTable.check MemfsTable.get
insert_auto-IsProper t v p = record {
  ordered = (table-IsOrdered t 0 v p.ordered).1;
  few = λ i e. elim (insert_auto_lem t v p.ordered) [
    | inl (zero_slot, same, full) ↦ p.few i (subst (λ x. is_some (find i x) ≡ true) same e)
    | inr (low, high, free, least, holds) ↦ ground (arith, holds i, p.few i)
  ];
}

check-get :
    (t : MemfsTable) (k : ℕ) (m : Memfs) → MemfsTable.get t k ≡ some m → MemfsTable.check t k ≡ true
unfolding MemfsTable.get MemfsTable.check
check-get t k m h = rw h refl

pub inserted : (t : MemfsTable) (v : Memfs) → MemfsTable.check (insert t 0 v).0 0 ≡ true
unfolding insert MemfsTable.check
inserted t v = ground (arith, find-place 0 0 v t)

pub empty-IsProper : (t : MemfsTable) → IsProper (MemfsTable.clear t)
unfolding MemfsTable.clear MemfsTable.check find
empty-IsProper t = record { ordered = tt; few = λ i e. cc }

module _ (sys : System) (blank : Filesystem)
    (parse : Memfs → Option Bytes → Option Filesystem) where
  pub load-IsProper :
      (t : MemfsTable) (index : ℕ) (m : Memfs) (offset : Option Bytes)
      → MemfsTable.check t index ≡ true
      → IsProper t
      → IsProper (load sys blank parse t index m offset).0
  unfolding load
  load-IsProper t index m offset h p = elim (Option-cases (parse m offset)) [
    | inl n ↦ rw (load, n) p
    | inr (fs, e) ↦ rw (load, e) (assign-IsProper t index (record m { fs = fs }) h p)
  ]

  pub load_memfs-IsProper :
      (t : MemfsTable) (data_at size : ℕ) (offset : Option Bytes)
      → IsProper t
      → IsProper (load_memfs sys blank parse t data_at size offset).0
  unfolding load_memfs
  load_memfs-IsProper t data_at size offset p =
      let (t', index) = insert_auto t (new_memfs blank data_at size) in
      let q = insert_auto-IsProper t (new_memfs blank data_at size) p in
      elim (Option-cases (MemfsTable.get t' index)) [
        | inl n ↦ rw (load_memfs, n) q
        | inr (m, e) ↦
            let (loaded, ret) = load sys blank parse t' index m offset in
            let l = load-IsProper t' index m offset (check-get t' index m e) q in
            elim (Bool-cases (ret ==ℤ pos 0)) [
              | inl z ↦ rw (load_memfs, e) (rw z l)
              | inr z ↦ rw (load_memfs, e) (rw z (remove-IsProper loaded index l))
            ]
      ]
