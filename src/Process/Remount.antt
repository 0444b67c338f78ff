-- ===== src/Process/Remount.antt =====
-- Mounting a root image over another one.
use libdwarfs.Prelude.{
  ℕ, pos, ◌≡◌, ◌≢◌, refl, none, some, [], Bytes, Option, ◌==◌, ◌⊎◌, inl, inr, if◌then◌else◌, arith,
  Option-cases,
}
use libdwarfs.Prelude.Maps.{assign, erase, nat_eq, int_eq, find-assign, find-erase, find-erase_self}
use libdwarfs.Errno.{dwarfs_io_error}
use libdwarfs.Dwarfs.{Filesystem}
use libdwarfs.System.{System}
use libdwarfs.Cwd.{tebako_init_cwd}
use libdwarfs.Fd.State.{close_all}
use libdwarfs.Dirent as Dirent
use libdwarfs.Memfs.State.{Memfs}
use libdwarfs.MemfsTable as MemfsTable
use libdwarfs.MemfsTable.{MemfsTable, insert, remove}
use libdwarfs.MemfsTable.Slots.{find-place}
use libdwarfs.MountTable as MountTable
use libdwarfs.IoRoot.{
  State, new_memfs, load, release_memfs_resources, release_root, mount_root_memfs,
}

-- Slot 0 behind the erase of its old file system and the insert of the new one.
renewed :
    (t : MemfsTable) (m : Memfs) (i : ℕ)
    → MemfsTable.get (insert (remove t 0) 0 m).0 i ≡ (if 0 == i then some m else MemfsTable.get t i)
unfolding MemfsTable.get insert remove
renewed t m i =
    let gone = find-erase_self 0 t in
    rw (insert, gone) (ground (arith, find-place i 0 m (erase 0 t) gone, find-erase 0 i t))

get-assign_zero :
    (t : MemfsTable) (m : Memfs) (i : ℕ)
    → MemfsTable.get (assign 0 m t) i ≡ (if 0 == i then some m else MemfsTable.get t i)
unfolding MemfsTable.get
get-assign_zero t m i = find-assign 0 i m t

get-remove_zero :
    (t : MemfsTable) (i : ℕ)
    → MemfsTable.get (remove t 0) i ≡ (if 0 == i then none else MemfsTable.get t i)
unfolding MemfsTable.get remove
get-remove_zero t i = find-erase 0 i t

module _ (sys : System) (blank : Filesystem)
    (parse : Memfs → Option Bytes → Option Filesystem) where
  -- Descriptors, open directories and mount points are gone, and the slots above 0 are as they were.
  pub record IsReset (before after : State sys.Os) : Type 0 where
    pub fds : after.fds ≡ []
    pub streams : after.streams ≡ []
    pub mounts : after.mounts ≡ []
    pub others :
        (i : ℕ) → i ≢ 0 → MemfsTable.get after.file_systems i ≡ MemfsTable.get before.file_systems i

  release_root_lem :
      (s : State sys.Os) (old : Memfs)
      → MemfsTable.get s.file_systems 0 ≡ some old
      → let r = release_root sys blank parse s in
        (r.fds ≡ [])
        × (r.streams ≡ [])
        × (r.mounts ≡ [])
        × (r.file_systems ≡ remove s.file_systems 0)
  unfolding release_root release_memfs_resources close_all Dirent.close_all MountTable.clear
  release_root_lem s old h = rw (release_root, h) (refl, refl, refl, refl)

  -- With a root image mounted: if the new image loads, it is the file system of slot 0, the result is 0 and
  -- the current directory is kept from now on; if not, slot 0 is empty and the result is -1. Either way
  -- the descriptors, the open directories and the mount points are gone, but the images in the slots
  -- above 0 stay there, where no mount point leads to them.
  pub mount_root_memfs_lem :
      (s : State sys.Os) (old : Memfs) (data_at size : ℕ) (image_offset : Option Bytes)
      → MemfsTable.get s.file_systems 0 ≡ some old
      → let m = new_memfs blank data_at size in
        let r = mount_root_memfs sys blank parse s data_at size image_offset in
        IsReset s r.0
        × (((r.1 ≡ pos 0)
              × ((fs : Filesystem) × (parse m image_offset ≡ some fs)
                  × (MemfsTable.get r.0.file_systems 0 ≡ some (record m { fs = fs })))
              × (r.0.cwd ≡ some []))
            ⊎ ((r.1 ≡ dwarfs_io_error)
                × (parse m image_offset ≡ none)
                × (MemfsTable.get r.0.file_systems 0 ≡ none)))
  unfolding mount_root_memfs load tebako_init_cwd
  mount_root_memfs_lem s old data_at size image_offset h =
      let m = new_memfs blank data_at size in
      let (fds, streams, mounts, systems) = release_root_lem s old h in
      let t = (insert (release_root sys blank parse s).file_systems 0 m).0 in
      let slots : (i : ℕ)
          → MemfsTable.get t i ≡ (if 0 == i then some m else MemfsTable.get s.file_systems i) =
        λ i. rw systems (renewed s.file_systems m i) in
      elim (Option-cases (parse m image_offset)) [
        | inl n ↦
            rw (mount_root_memfs, load, n)
              (
                record {
                  fds = fds;
                  streams = streams;
                  mounts = mounts;
                  others = λ i z. ground (arith, get-remove_zero t i, slots i);
                },
                inr (refl, refl, ground (arith, get-remove_zero t 0)),
              )
        | inr (fs, e) ↦
            rw (mount_root_memfs, load, e)
              (
                record {
                  fds = fds;
                  streams = streams;
                  mounts = mounts;
                  others =
                      λ i z. ground (arith, get-assign_zero t (record m { fs = fs }) i, slots i);
                },
                inl (
                  refl,
                  (fs, refl, ground (arith, get-assign_zero t (record m { fs = fs }) 0)),
                  refl,
                ),
              )
      ]
