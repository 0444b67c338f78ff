-- ===== src/IoRoot/Mounts.antt =====
-- What mounting an image does to the table of file systems and to the mount points.
use libdwarfs.Prelude.{
  ℕ, ℤ, pos, ◌≤◌, ◌≡◌, ◌≢◌, refl, subst, true, false, Option, none, some, Bytes, ◌==◌,
  if◌then◌else◌, arith, inl, inr,
}
use libdwarfs.Prelude.Maps.{assign, nat_eq, find-assign}
use libdwarfs.Errno.{Out, dwarfs_io_error, returns}
use libdwarfs.Dwarfs.{Filesystem}
use libdwarfs.System.{System}
use libdwarfs.Memfs.State.{Memfs, set_root_inode}
use libdwarfs.MemfsTable as MemfsTable
use libdwarfs.MemfsTable.{insert_auto, MemfsTable}
use libdwarfs.MemfsTable.Inode.{fs_ino_from_fs_and_ino}
use libdwarfs.MemfsTable.Slots.{IsOrdered, insert_auto_lem}
use libdwarfs.MountTable as MountTable
use libdwarfs.MountTable.{MountPoint, memfs, point, insert_lem}
use libdwarfs.IoRoot.{State, new_memfs, load, load_memfs, mount_memfs}

module _ (sys : System) (blank : Filesystem)
    (parse : Memfs → Option Bytes → Option Filesystem) where
  -- The object that stands in slot `index` before its image is loaded.
  abbrev pub placed : ℕ → ℕ → ℕ → Memfs
  placed data_at size index =
      set_root_inode (new_memfs blank data_at size) (fs_ino_from_fs_and_ino index 0)

  load_memfs_lem :
      (t : MemfsTable) (data_at size : ℕ) (image_offset : Option Bytes) (m : Memfs)
      (fs : Filesystem)
      → let a = insert_auto t (new_memfs blank data_at size) in
        MemfsTable.get a.0 a.1 ≡ some m
        → parse m image_offset ≡ some fs
        → load_memfs sys blank parse t data_at size image_offset
          ≡ (assign a.1 (record m { fs = fs }) a.0, returns (pos a.1))
  unfolding load_memfs load
  load_memfs_lem t data_at size image_offset m fs g p = rw (load_memfs, g, load, p) refl

  -- The mount point is written behind a load that gave a slot.
  mount_memfs_loaded :
      (s : State sys.Os) (data_at size index : ℕ) (image_offset : Option Bytes) (folder : Bytes)
      (parent : ℕ) (t : MemfsTable)
      → load_memfs sys blank parse s.file_systems data_at size image_offset
        ≡ (t, returns (pos index))
      → let i = MountTable.insert s.mounts (parent, folder) (memfs index) in
        mount_memfs sys blank parse s data_at size image_offset parent folder ≡ (
          record s { file_systems = t; mounts = i.0 },
          record { value = if i.1 then pos index else dwarfs_io_error; errno = none },
        )
  unfolding mount_memfs
  mount_memfs_loaded s data_at size index image_offset folder parent t l = rw (mount_memfs, l) refl

  get-assign :
      (t : MemfsTable) (i j : ℕ) (m : Memfs)
      → MemfsTable.get (assign i m t) j ≡ (if i == j then some m else MemfsTable.get t j)
  unfolding MemfsTable.get
  get-assign t i j m = find-assign i j m t

  -- What `mount_memfs` leaves where the image was loaded into slot `index`, as `m`.
  abbrev pub Mounted : State sys.Os → ℕ → Memfs → MountPoint → State sys.Os × Out ℤ → Type 0
  Mounted s index m at r =
      let taken = MountTable.check s.mounts at in
      (r.1.value ≡ (if taken then dwarfs_io_error else pos index))
      × (MountTable.get r.0.mounts at
          ≡ (if taken then MountTable.get s.mounts at else some (memfs index)))
      × ((i : ℕ)
          → MemfsTable.get r.0.file_systems i
            ≡ (if index == i then some m else MemfsTable.get s.file_systems i))
      × ((q : MountPoint) → at ≢ q → MountTable.get r.0.mounts q ≡ MountTable.get s.mounts q)
      × (r.0.fds ≡ s.fds)
      × (r.0.os ≡ s.os)

  loaded-Mounted :
      (s : State sys.Os) (data_at size : ℕ) (image_offset : Option Bytes) (folder : Bytes)
      (parent : ℕ) (m : Memfs) (fs : Filesystem)
      → let a = insert_auto s.file_systems (new_memfs blank data_at size) in
        MemfsTable.get a.0 a.1 ≡ some m
        → ((i : ℕ) → (a.1 == i) ≡ false → MemfsTable.get a.0 i ≡ MemfsTable.get s.file_systems i)
        → parse m image_offset ≡ some fs
        → Mounted s a.1
            (record m { fs = fs })
            (parent, folder)
            (mount_memfs sys blank parse s data_at size image_offset parent folder)
  loaded-Mounted s data_at size image_offset folder parent m fs g others p =
      let a = insert_auto s.file_systems (new_memfs blank data_at size) in
      let at : MountPoint = (parent, folder) in
      let l = load_memfs_lem s.file_systems data_at size image_offset m fs g p in
      let e =
        mount_memfs_loaded s data_at size a.1 image_offset folder parent
          (assign a.1 (record m { fs = fs }) a.0) l in
      let mount = insert_lem s.mounts at at (memfs a.1) in
      let away = λ (q : MountPoint). (insert_lem s.mounts at q (memfs a.1)).2 in
      rw e (
        ground (arith, mount.0),
        mount.1,
        λ i. ground (arith, get-assign a.0 a.1 i (record m { fs = fs }), others i),
        away,
        refl,
        refl,
      )

  -- The slot that the next file system takes, or 0.
  abbrev pub slot : MemfsTable → ℕ → ℕ → ℕ
  slot t data_at size = (insert_auto t (new_memfs blank data_at size)).1

  -- On an ordered table of file systems, if one of the slots 1 to 7 is free and the image loads, the new
  -- file system stands in the slot that `insert_auto` picked. If the mount point was free, the slot is the result and the mount point's
  -- target. A taken mount point keeps its target and the result is -1, but the file system stays in
  -- the slot. Every other slot, every other mount point, the descriptors and the system are as they
  -- were.
  pub mount_memfs_lem :
      (s : State sys.Os) (data_at size : ℕ) (image_offset : Option Bytes) (folder : Bytes)
      (parent : ℕ) (fs : Filesystem)
      → let index = slot s.file_systems data_at size in
        let m = placed data_at size index in
        IsOrdered s.file_systems
        → index ≢ 0
        → parse m image_offset ≡ some fs
        → Mounted s index
            (record m { fs = fs })
            (parent, folder)
            (mount_memfs sys blank parse s data_at size image_offset parent folder)
  mount_memfs_lem s data_at size image_offset folder parent fs o n p =
      elim (insert_auto_lem s.file_systems (new_memfs blank data_at size) o) [
        | inl full ↦ absurd (n full.0)
        | inr (low, high, free, least, holds) ↦
            let index = slot s.file_systems data_at size in
            let m = placed data_at size index in
            loaded-Mounted s data_at size image_offset folder parent m fs
              (ground (arith, holds index)) (λ i h. ground (arith, holds i)) p
      ]

  -- On an ordered table with a root file system and the slots 1 to 7 taken, the new image is not mounted
  -- at all: the root file system, if it can be loaded at the offset of the new image, is loaded
  -- again, and is what a free mount point then leads to.
  pub mount_memfs_full :
      (s : State sys.Os) (data_at size : ℕ) (image_offset : Option Bytes) (folder : Bytes)
      (parent : ℕ) (root : Memfs) (fs : Filesystem)
      → IsOrdered s.file_systems
      → ((i : ℕ) → 1 ≤ i → i ≤ 7 → MemfsTable.check s.file_systems i ≡ true)
      → MemfsTable.get s.file_systems 0 ≡ some root
      → parse root image_offset ≡ some fs
      → Mounted s 0
          (record root { fs = fs })
          (parent, folder)
          (mount_memfs sys blank parse s data_at size image_offset parent folder)
  mount_memfs_full s data_at size image_offset folder parent root fs o full g p =
      elim (insert_auto_lem s.file_systems (new_memfs blank data_at size) o) [
        | inl (zero_slot, same, taken) ↦
            subst
              (λ index.
                Mounted s index (record root { fs = fs }) (parent, folder)
                  (mount_memfs sys blank parse s data_at size image_offset parent folder))
              zero_slot
              (loaded-Mounted s data_at size image_offset folder parent root fs
                (rw (same, zero_slot) g) (λ i h. rw same refl) p)
        | inr (low, high, free, least, holds) ↦
            let index = slot s.file_systems data_at size in
            absurd (ground (arith, full index low high, free))
      ]
