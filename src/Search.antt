-- ===== src/Search.antt =====
-- The searches by path of src/tebako-io-root.cpp: dwarfs_stat, dwarfs_lstat, dwarfs_relative_stat and
-- dwarfs_inode_relative_stat, on the mounted images. memfs::find_inode_abs (src/tebako-memfs.cpp) hands
-- an absolute link within memfs back to tebako_stat (src/file-ctl.cpp), and so here: one fuel bounds
-- the nesting of these calls, and the rounds in each.
pub mod Across
pub mod Links
pub mod Mounted
pub mod Reads
use libdwarfs.Prelude.{
  ℕ, ℤ, zero, suc, ◌==ℤ◌, ◌%◌, ◌^◌, Bool, true, false, Option, none, some, [], Bytes, if◌then◌else◌,
}
use libdwarfs.Errno.{Out, dwarfs_s_link_outside}
use libdwarfs.Dwarfs.{Stat}
use libdwarfs.Root.{Root, Found}
use libdwarfs.IoRoot.{io_root}
use libdwarfs.Cwd.{Cwd, to_tebako_path}
use libdwarfs.Paths.{parse}
use libdwarfs.Memfs.State.{Memfs}
use libdwarfs.Memfs.Find.{missing, find_inode_abs, find_inode_root}
use libdwarfs.MemfsTable as MemfsTable
use libdwarfs.MemfsTable.{MemfsTable}
use libdwarfs.MemfsTable.Inode.{get_fs_index}
use libdwarfs.MountTable.{MountTable}

-- memfs_call for a search: ENOENT where no such file system is mounted.
unfoldable pub search_call : MemfsTable → ℕ → Bytes → (Memfs → Option Found) → Option Found
search_call t fs_index lnk fn = elim (MemfsTable.get t fs_index) [
  | none ↦ some (missing lnk)
  | some m ↦ fn m
]

-- `sys_stat` is the system's call.
module _ (mounts : MountTable) (systems : MemfsTable) (cwd : Cwd)
    (sys_stat : Bytes → Out (ℤ × Stat)) where
  unfoldable pub system_stat : Bytes → Found
  system_stat path = record {
    ret = (sys_stat path).value.0;
    st = (sys_stat path).value.1;
    lnk = [];
    errno = (sys_stat path).errno;
  }

  -- tebako_stat, with the search that it makes.
  unfoldable pub stat_back : (Bytes → Option Found) → Bytes → Option Found
  stat_back stat path = elim (to_tebako_path cwd path) [
    | none ↦ some (system_stat path)
    | some p ↦ elim (stat p) [
      | none ↦ none
      | some f ↦ if f.ret ==ℤ dwarfs_s_link_outside then some (system_stat f.lnk) else some f
    ]
  ]

  unfoldable pub dwarfs_stat : ℕ → Bytes → Bool → Bytes → Option Found
  dwarfs_stat zero path follow lnk = none
  dwarfs_stat (suc fuel) path follow lnk = search_call systems 0 lnk (λ m.
      find_inode_root mounts systems follow (stat_back (λ p. dwarfs_stat fuel p true [])) (suc fuel)
        m path lnk)

  unfoldable pub dwarfs_lstat : ℕ → Bytes → Bytes → Option Found
  dwarfs_lstat fuel path lnk = dwarfs_stat fuel path false lnk

  unfoldable pub dwarfs_relative_stat : ℕ → Bytes → Bytes → Bool → Option Found
  dwarfs_relative_stat fuel path lnk follow = search_call systems 0 lnk (λ m.
      find_inode_abs mounts systems follow (stat_back (λ p. dwarfs_stat fuel p true [])) fuel m
        m.dwarfs_root_inode (parse path) lnk)

  unfoldable pub dwarfs_inode_relative_stat : ℕ → ℕ → Bytes → Bool → Bytes → Option Found
  dwarfs_inode_relative_stat fuel inode path follow lnk =
      search_call systems (get_fs_index (inode % 2 ^ 32)) lnk (λ m.
        find_inode_abs mounts systems follow (stat_back (λ p. dwarfs_stat fuel p true [])) fuel m
          (inode % 2 ^ 32) (parse path) lnk)

  -- The calls for the tables, with a bound on the searches: one that does not end in it fails.
  abbrev ended : Bytes → Option Found → Found
  ended lnk found = elim found [ none ↦ missing lnk | some f ↦ f ]

  abbrev pub search_root : ℕ → Root
  search_root fuel =
      io_root (λ p follow lnk. ended lnk (dwarfs_stat fuel p follow lnk))
        (λ inode p follow lnk. ended lnk (dwarfs_inode_relative_stat fuel inode p follow lnk))
        systems
