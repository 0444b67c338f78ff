-- ===== src/Dwarfs.antt =====
-- The interface of dwarfs::filesystem_v2 that src/tebako-memfs.cpp calls. The library is not part of
-- the repository, so a `Filesystem` is a parameter: any functions of these types. A handle
-- (dwarfs::inode_view, dwarfs::directory_view) is named by a number. A return code below zero is
-- minus an errno.
use libdwarfs.Prelude.{ℕ, ◌/◌, ◌%◌, Bool, Option, Bytes, ℤ, ◌==◌}

-- struct stat, as far as the code reads it. `dwarfs::copy_file_stat` copies all fields.
pub record Stat : Type 0 where
  pub st_ino : ℕ
  pub st_mode : ℕ
  pub st_size : ℤ

-- The macros of sys/stat.h on the mode.
abbrev pub is_dir : ℕ → Bool
is_dir mode = mode / 4096 % 16 == 4

abbrev pub is_lnk : ℕ → Bool
is_lnk mode = mode / 4096 % 16 == 10

pub record Filesystem : Type 0 where
  pub find : ℕ → Option ℕ
  pub find_at : ℕ → Bytes → Option ℕ
  pub inode_num : ℕ → ℕ
  pub getattr : ℕ → ℤ × Stat
  pub readlink : ℕ → ℤ × Bytes
  pub read : ℕ → ℕ → ℤ → ℤ × Bytes
  pub opendir : ℕ → Option ℕ
  pub dirsize : ℕ → ℕ
  pub readdir : ℕ → ℕ → Option (ℕ × Bytes)
