-- ===== src/MemfsTable/Inode.antt =====
-- Inode numbers that carry the index of their file system: the constants and static functions of
-- `sync_tebako_memfs_table`. `ino_t` has 64 bits, and the encoded numbers 32, of which the highest
-- `fs_bits` are the index.
use libdwarfs.Prelude.{ℕ, ◌+◌, ◌-◌, ◌*◌, ◌/◌, ◌%◌, ◌^◌, ◌<◌, ◌≤◌, ◌≡◌, ◌≢◌, min, arith}
use libdwarfs.Memfs.State.{Memfs, set_root_inode}

abbrev pub ino_bits : ℕ
ino_bits = min 8 4 * 8

abbrev pub fs_bits : ℕ
fs_bits = 1

-- `& fsMask` and `& inoMask` keep the low bits.
unfoldable pub get_fs_index : ℕ → ℕ
get_fs_index ino = ino / 2 ^ (ino_bits - fs_bits) % 2 ^ fs_bits

unfoldable pub get_fs_ino : ℕ → ℕ
get_fs_ino ino = ino % 2 ^ (ino_bits - fs_bits)

-- The two operands of `|` share no bit, so it is their sum.
unfoldable pub fs_ino_from_fs_and_ino : ℕ → ℕ → ℕ
fs_ino_from_fs_and_ino index ino = index * 2 ^ (ino_bits - fs_bits) % 2 ^ 64 + get_fs_ino ino

-- An index below 2 and a local inode number below 2^31 can both be read back from the number that
-- combines them, and that number fits 32 bits.
pub fs_ino_fields :
    (index ino : ℕ)
    → index < 2
    → ino < 2 ^ 31
    → (get_fs_index (fs_ino_from_fs_and_ino index ino) ≡ index)
      × (get_fs_ino (fs_ino_from_fs_and_ino index ino) ≡ ino)
      × (fs_ino_from_fs_and_ino index ino < 2 ^ 32)
unfolding get_fs_index get_fs_ino fs_ino_from_fs_and_ino
fs_ino_fields index ino h k = omega arith

-- The root inode that a file system of index 2 to 7 is given does not lead back to its index: one
-- bit is kept, so it leads to file system 0 or 1.
pub root_inode_aliases :
    (fs : Memfs) (index : ℕ)
    → 2 ≤ index
    → index ≤ 7
    → (get_fs_index (set_root_inode fs (fs_ino_from_fs_and_ino index 0)).dwarfs_root_inode
        ≡ index % 2)
      × (get_fs_index (set_root_inode fs (fs_ino_from_fs_and_ino index 0)).dwarfs_root_inode
          ≢ index)
unfolding get_fs_index get_fs_ino fs_ino_from_fs_and_ino set_root_inode
root_inode_aliases fs index h k = omega arith
