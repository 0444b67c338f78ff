-- ===== src/MemfsTable.antt =====
-- src/tebako-memfs-table.cpp and include/tebako-memfs-table.h: the mounted file systems by index, and
-- the inode numbers that carry an index. The lock of folly::Synchronized makes each call one step.
pub mod Inode
pub mod Slots
mod Tests
use libdwarfs.Prelude.{
  ℕ, ◌+◌, Bool, true, false, Option, none, some, [], ◌∷◌, ltb, ◌==◌, if◌then◌else◌,
}
use libdwarfs.Prelude.Maps.{Map, find, erase, is_some, nat_eq}
use libdwarfs.Memfs.State.{Memfs, set_root_inode}
use Inode.{fs_ino_from_fs_and_ino}

-- std::map<uint32_t, std::shared_ptr<memfs>>, in the order of the keys.
abbrev pub MemfsTable : Type 0
MemfsTable = Map ℕ Memfs

abbrev pub empty : MemfsTable
empty = []

unfoldable pub check : MemfsTable → ℕ → Bool
check t index = is_some (find index t)

unfoldable pub clear : MemfsTable → MemfsTable
clear t = []

-- `extract` takes the node out.
unfoldable pub remove : MemfsTable → ℕ → MemfsTable
remove t index = erase index t

unfoldable pub get : MemfsTable → ℕ → Option Memfs
get t index = find index t

-- The place of a key that is not there yet.
unfoldable pub place : ℕ → Memfs → MemfsTable → MemfsTable
place k v [] = (k, v) ∷ []
place k v ((j, w) ∷ t) = if ltb k j then (k, v) ∷ (j, w) ∷ t else (j, w) ∷ place k v t

-- `emplace(index, fs)`, and whether it took place.
unfoldable pub insert : MemfsTable → ℕ → Memfs → MemfsTable × Bool
insert t index fs = elim (find index t) [ none ↦ (place index fs t, true) | some w ↦ (t, false) ]

-- The loop over the table: stop at the gap, step over an expected index.
unfoldable pub next_index : ℕ → MemfsTable → ℕ
next_index index [] = index
next_index index ((k, w) ∷ t) =
    let rest = next_index (if k == index then index + 1 else index) t in
    if ltb index k then index else rest

unfoldable pub insert_auto : MemfsTable → Memfs → MemfsTable × ℕ
insert_auto t fs =
    let index = next_index 1 t in
    if ltb 7 index
    then (t, 0)
    else ((insert t index (set_root_inode fs (fs_ino_from_fs_and_ino index 0))).0, index)
