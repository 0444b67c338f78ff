-- ===== src/Root.antt =====
-- What the descriptor and directory tables call of src/tebako-io-root.cpp: the dwarfs_* functions on
-- the mounted file systems. A table takes the record as a parameter, and `IoRoot` fills it.
use libdwarfs.Prelude.{ℕ, ℤ, List, Bytes, Bool, Option}
use libdwarfs.Errno.{Errno, Out}
use libdwarfs.Dwarfs.{Stat}

-- The result of a search: the return code, `*st`, `lnk` and errno after the call.
pub record Found : Type 0 where
  pub ret : ℤ
  pub st : Stat
  pub lnk : Bytes
  pub errno : Option Errno

-- An entry of a directory as `tebako_dirent` holds it.
pub record Dirent : Type 0 where
  pub d_ino : ℕ
  pub d_off : ℕ
  pub d_type : ℕ
  pub d_name : Bytes

-- The result of a readdir: the entries written to the cache, `cache_size` of them, and `dir_size`,
-- `none` where it was not written.
pub record Listing : Type 0 where
  pub ret : ℤ
  pub entries : List Dirent
  pub dir_size : Option ℕ
  pub errno : Option Errno

pub record Root : Type 0 where
  pub stat : Bytes → Bool → Bytes → Found
  pub inode_access : ℕ → ℕ → Out ℤ
  pub inode_relative_stat : ℕ → Bytes → Bool → Bytes → Found
  pub inode_read : ℕ → ℕ → ℤ → Out (ℤ × Bytes)
  pub inode_readdir : ℕ → ℤ → ℕ → Listing
