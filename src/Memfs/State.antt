-- ===== src/Memfs/State.antt =====
-- The state of one `tebako::memfs` (include/tebako-memfs.h).
use libdwarfs.Prelude.{ℕ, ◌%◌, ◌^◌}
use libdwarfs.Dwarfs.{Filesystem}

-- `image` names the bytes that `data` points to; `fs` is what `load` made of them.
pub record Memfs : Type 0 where
  pub image : ℕ
  pub size : ℕ
  pub dwarfs_root_inode : ℕ
  pub fs : Filesystem

-- The parameter is a `uint32_t`.
unfoldable pub set_root_inode : Memfs → ℕ → Memfs
set_root_inode m df_root_inode = record m { dwarfs_root_inode = df_root_inode % 2 ^ 32 }
