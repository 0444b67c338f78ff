-- ===== src/IoRoot.antt =====
-- src/tebako-io-root.cpp, and the call templates of include/tebako-memfs-table.h: mounting images, and
-- the dwarfs_* functions that find the file system of a call. A search by path is `Memfs.Find`; here
-- the searches are the parameters `stat` and `relative_stat`, so that the record `Root` can be filled.
pub mod Inodes
pub mod Mounts
pub mod Settings
mod Tests
use libdwarfs.Prelude.{
  ℕ, ℤ, pos, ◌%◌, ◌^◌, ◌==ℤ◌, Bool, true, false, Option, none, some, [], Bytes, ◌==◌, if◌then◌else◌,
  pos_part,
}
use libdwarfs.Prelude.Maps.{find, assign, nat_eq}
use libdwarfs.Errno.{Errno, Out, returns, fails, later, dwarfs_io_error, enoent, enomem}
use libdwarfs.Cwd.{Cwd, tebako_init_cwd, tebako_drop_cwd}
use libdwarfs.Dwarfs.{Stat, Filesystem}
use libdwarfs.Root.{Root, Found, Listing}
use libdwarfs.System.{System}
use libdwarfs.Fd.State as FdState
use libdwarfs.Fd.State.{FdTable}
use libdwarfs.Dirent as Dirent
use libdwarfs.Dirent.{DsTable}
use libdwarfs.Memfs.State.{Memfs}
use libdwarfs.Memfs.Inode as Inode
use libdwarfs.MemfsTable as MemfsTable
use libdwarfs.MemfsTable.{MemfsTable, insert_auto}
use libdwarfs.MemfsTable.Inode.{get_fs_index}
use libdwarfs.MountTable as MountTable
use libdwarfs.MountTable.{MountTable, memfs}

-- memfs_call, with what the call gives where no such file system is mounted.
unfoldable pub memfs_call {ℓ} : {A : Type ℓ} → MemfsTable → ℕ → A → (Memfs → Out A) → Out A
memfs_call t fs_index missing fn = elim (MemfsTable.get t fs_index) [
  | none ↦ fails missing enoent
  | some m ↦ fn m
]

-- The parameter `inode` is a `uint32_t`, and its high bit names the file system.
unfoldable pub inode_memfs_call {ℓ} :
    {A : Type ℓ} → MemfsTable → ℕ → A → (Memfs → ℕ → Out A) → Out A
inode_memfs_call t inode missing fn =
    memfs_call t (get_fs_index (inode % 2 ^ 32)) missing (λ m. fn m (inode % 2 ^ 32))

unfoldable pub dwarfs_inode_access : MemfsTable → ℕ → ℕ → Out ℤ
dwarfs_inode_access t inode amode =
    inode_memfs_call t inode dwarfs_io_error (λ m i. Inode.inode_access m i amode)

unfoldable pub dwarfs_inode_read : MemfsTable → ℕ → ℕ → ℤ → Out (ℤ × Bytes)
dwarfs_inode_read t inode size offset =
    inode_memfs_call t inode (dwarfs_io_error, []) (λ m i. Inode.inode_read m i size offset)

unfoldable pub dwarfs_inode_readlink : MemfsTable → ℕ → Out (ℤ × Bytes)
dwarfs_inode_readlink t inode =
    inode_memfs_call t inode (dwarfs_io_error, []) (λ m i. Inode.inode_readlink m i)

-- The same call, for a result that carries errno itself.
unfoldable pub dwarfs_inode_readdir : MemfsTable → ℕ → ℤ → ℕ → Listing
dwarfs_inode_readdir t inode cache_start buffer_size =
    elim (MemfsTable.get t (get_fs_index (inode % 2 ^ 32))) [
      | none ↦ record { ret = dwarfs_io_error; entries = []; dir_size = none; errno = some enoent }
      | some m ↦ Inode.inode_readdir m (inode % 2 ^ 32) cache_start buffer_size
    ]

abbrev pub io_root :
    (Bytes → Bool → Bytes → Found) → (ℕ → Bytes → Bool → Bytes → Found) → MemfsTable → Root
io_root stat relative_stat t = record {
  stat = stat;
  inode_access = dwarfs_inode_access t;
  inode_relative_stat = relative_stat;
  inode_read = dwarfs_inode_read t;
  inode_readdir = dwarfs_inode_readdir t;
}

-- The constructor of `memfs`; `blank` is a file system that nothing was loaded into.
abbrev pub new_memfs : Filesystem → ℕ → ℕ → Memfs
new_memfs blank data_at size = record {
  image = data_at;
  size = size;
  dwarfs_root_inode = 0;
  fs = blank;
}

-- The tables of the process, and whether a current directory is kept.
pub record State (Os : Type 0) : Type 0 where
  pub os : Os
  pub fds : FdTable
  pub streams : DsTable
  pub mounts : MountTable
  pub file_systems : MemfsTable
  pub cwd : Cwd

-- `parse` is the constructor of filesystem_v2 with the shared options as they stand, on the image, the
-- offset string, which may be a null pointer, and the root inode:
-- `none` where it throws. `blank` is a file system before `load`.
module _ (sys : System) (blank : Filesystem)
    (parse : Memfs → Option Bytes → Option Filesystem) where
  open sys use {Os}

  unfoldable pub release_memfs_resources : State Os → State Os
  release_memfs_resources s =
      let (fds, os, streams) = Dirent.close_all sys s.fds s.os s.streams in
      let (fds', os') = FdState.close_all sys fds os in
      record s {
        os = os';
        fds = fds';
        streams = streams;
        mounts = MountTable.clear s.mounts;
        cwd = tebako_drop_cwd s.cwd;
      }

  -- fs->load on the object that the table shares.
  unfoldable pub load : MemfsTable → ℕ → Memfs → Option Bytes → MemfsTable × ℤ
  load t index m image_offset = elim (parse m image_offset) [
    | none ↦ (t, dwarfs_io_error)
    | some fs ↦ (assign index (record m { fs = fs }) t, pos 0)
  ]

  unfoldable pub load_memfs : MemfsTable → ℕ → ℕ → Option Bytes → MemfsTable × Out ℤ
  load_memfs t data_at size image_offset =
      let (t', index) = insert_auto t (new_memfs blank data_at size) in
      elim (MemfsTable.get t' index) [
        | none ↦ (t', returns (pos index))
        | some m ↦
            let (loaded, ret) = load t' index m image_offset in
            if ret ==ℤ pos 0
            then (loaded, returns (pos index))
            else (MemfsTable.remove loaded index, fails dwarfs_io_error enomem)
      ]

  unfoldable pub mount_memfs : State Os → ℕ → ℕ → Option Bytes → ℕ → Bytes → State Os × Out ℤ
  mount_memfs s data_at size image_offset parent_inode folder =
      let (t, loaded) = load_memfs s.file_systems data_at size image_offset in
      if loaded.value ==ℤ dwarfs_io_error
      then (record s { file_systems = t }, record { value = dwarfs_io_error; errno = loaded.errno })
      else (let (mounts, fresh) =
            MountTable.insert s.mounts (parent_inode, folder) (memfs (pos_part loaded.value)) in
          (
            record s { file_systems = t; mounts = mounts },
            record {
              value = if fresh then loaded.value else dwarfs_io_error;
              errno = loaded.errno;
            },
          ))

  -- The overload without a parent mounts in the root directory; without a root file system the code
  -- follows a null pointer, here `none`.
  unfoldable pub mount_memfs_at_root :
      State Os → ℕ → ℕ → Option Bytes → Bytes → Option (State Os × Out ℤ)
  mount_memfs_at_root s data_at size image_offset folder = elim (MemfsTable.get s.file_systems 0) [
    | none ↦ none
    | some m ↦ some (mount_memfs s data_at size image_offset m.dwarfs_root_inode folder)
  ]

  -- A root file system that is there goes first, with all that stands on it.
  unfoldable pub release_root : State Os → State Os
  release_root s = elim (MemfsTable.get s.file_systems 0) [
    | none ↦ s
    | some m ↦
        let r = release_memfs_resources s in
        record r { file_systems = MemfsTable.remove r.file_systems 0 }
  ]

  -- Behind the settings, which `Settings` puts in front.
  unfoldable pub mount_root_memfs : State Os → ℕ → ℕ → Option Bytes → State Os × ℤ
  mount_root_memfs s data_at size image_offset =
      let released = release_root s in
      let m = new_memfs blank data_at size in
      let t = (MemfsTable.insert released.file_systems 0 m).0 in
      let (loaded, ret) = load t 0 m image_offset in
      if ret ==ℤ pos 0
      then (record released { file_systems = loaded; cwd = tebako_init_cwd released.cwd }, pos 0)
      else (record released { file_systems = MemfsTable.remove loaded 0 }, dwarfs_io_error)

  unfoldable pub unmount_root_memfs : State Os → State Os
  unmount_root_memfs s =
      let r = release_memfs_resources s in
      record r { file_systems = MemfsTable.clear r.file_systems }
