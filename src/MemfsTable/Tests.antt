-- ===== src/MemfsTable/Tests.antt =====
-- The theorems on a table that holds the file systems 0, 1 and 3.
use libdwarfs.Prelude.{
  ℕ, ◌<◌, ◌≤◌, ◌≡◌, ◌≢◌, ◌⊎◌, true, false, none, some, [], ◌∷◌, arith, pos, ◌==◌, if◌then◌else◌,
}
use libdwarfs.Dwarfs.{Filesystem}
use libdwarfs.Memfs.State.{Memfs, set_root_inode}
use libdwarfs.MemfsTable.{MemfsTable, insert_auto, get, check}
use libdwarfs.MemfsTable.Inode.{get_fs_index, fs_ino_from_fs_and_ino, root_inode_aliases}
use libdwarfs.MemfsTable.Slots.{IsOrdered, insert_auto_lem}

abbrev nothing : Filesystem
nothing = record {
  find = λ i. none;
  find_at = λ i s. none;
  inode_num = λ v. 0;
  getattr = λ v. (pos 0, record { st_ino = 0; st_mode = 0; st_size = pos 0 });
  readlink = λ v. (pos 0, []);
  read = λ i n o. (pos 0, []);
  opendir = λ v. none;
  dirsize = λ d. 0;
  readdir = λ d i. none;
}

abbrev blank : Memfs
blank = record { image = 0; size = 0; dwarfs_root_inode = 0; fs = nothing }

abbrev three : MemfsTable
three = (0, blank) ∷ (1, blank) ∷ (3, blank) ∷ []

three-IsOrdered : IsOrdered three
three-IsOrdered = (omega arith, (omega arith, (omega arith, tt)))

root_inode_aliases_example :
    (get_fs_index (set_root_inode blank (fs_ino_from_fs_and_ino 3 0)).dwarfs_root_inode ≡ 1)
    × (get_fs_index (set_root_inode blank (fs_ino_from_fs_and_ino 3 0)).dwarfs_root_inode ≢ 3)
root_inode_aliases_example = root_inode_aliases blank 3 (omega arith) (omega arith)

insert_auto_lem_example :
    let r = insert_auto three blank in
    let fs' = set_root_inode blank (fs_ino_from_fs_and_ino r.1 0) in
    ((r.1 ≡ 0) × (r.0 ≡ three) × ((i : ℕ) → 1 ≤ i → i ≤ 7 → check three i ≡ true))
    ⊎ ((1 ≤ r.1)
        × (r.1 ≤ 7)
        × (check three r.1 ≡ false)
        × ((i : ℕ) → 1 ≤ i → i < r.1 → check three i ≡ true)
        × ((i : ℕ) → get r.0 i ≡ (if r.1 == i then some fs' else get three i)))
insert_auto_lem_example = insert_auto_lem three blank three-IsOrdered
