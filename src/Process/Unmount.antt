-- ===== src/Process/Unmount.antt =====
-- What release_memfs_resources and unmount_root_memfs leave behind.
use libdwarfs.Prelude.{
  ℕ, ℤ, ◌≡◌, refl, false, none, some, [], ◌∷◌, Bytes, Option, ◌==ℤ◌, ==ℤ_iff, ◌⊎◌, inl, inr, arith,
  Bool-cases, Option-cases,
}
use libdwarfs.Prelude.Maps.{find, int_eq, find-erase}
use libdwarfs.Dwarfs.{Filesystem}
use libdwarfs.System.{System, IsPosix}
use libdwarfs.Cwd.{tebako_drop_cwd}
use libdwarfs.Fd.State.{Fd, FdTable, destroy, close_fd, destroy_all, close_all}
use libdwarfs.Dirent as Dirent
use libdwarfs.Dirent.{DsTable, close_each}
use libdwarfs.Memfs.State.{Memfs}
use libdwarfs.MemfsTable as MemfsTable
use libdwarfs.MountTable as MountTable
use libdwarfs.IoRoot.{State, release_memfs_resources, unmount_root_memfs}

module _ (sys : System) (posix : IsPosix sys) where
  open sys use {Os, is_open}

  -- The descriptor is in the table under this name, or closed.
  abbrev Leaves : FdTable → Os → ℤ → ℕ → Type 0
  Leaves t os vfd n =
      ((fd : Fd) × (find vfd t ≡ some fd) × (fd.handle ≡ some n)) ⊎ (is_open os n ≡ false)

  destroy-closed :
      (fd : Fd) (os : Os) (n : ℕ)
      → is_open os n ≡ false
      → is_open (destroy sys (some fd) os) n ≡ false
  unfolding destroy
  destroy-closed fd os n h = elim (Option-cases fd.handle) [
    | inl e ↦ rw (destroy, e) h
    | inr (k, e) ↦ rw (destroy, e) (ground (arith, posix.close_closes os k n))
  ]

  destroy-closes :
      (fd : Fd) (os : Os) (n : ℕ)
      → fd.handle ≡ some n
      → is_open (destroy sys (some fd) os) n ≡ false
  unfolding destroy
  destroy-closes fd os n h = rw (destroy, h) (ground (arith, posix.close_closes os n n))

  close_fd-Leaves :
      (t : FdTable) (os : Os) (j vfd : ℤ) (n : ℕ)
      → Leaves t os vfd n
      → let r = close_fd sys t os j in Leaves r.0 r.1 vfd n
  unfolding close_fd
  close_fd-Leaves t os j vfd n (inl (fd, f, h)) = elim (Option-cases (find j t)) [
    | inl e ↦ rw (close_fd, e) (inl (fd, f, h))
    | inr (other, e) ↦
        rw (close_fd, e)
          (elim (Bool-cases (j ==ℤ vfd)) [
            | inl y ↦ inr (destroy-closes other os n (ground (arith, ==ℤ_iff j vfd)))
            | inr y ↦ inl (fd, ground (arith, find-erase j vfd t), h)
          ])
  ]
  close_fd-Leaves t os j vfd n (inr c) = elim (Option-cases (find j t)) [
    | inl e ↦ rw (close_fd, e) (inr c)
    | inr (other, e) ↦ rw (close_fd, e) (inr (destroy-closed other os n c))
  ]

  close_each-Leaves :
      (streams : DsTable) (t : FdTable) (os : Os) (vfd : ℤ) (n : ℕ)
      → Leaves t os vfd n
      → let r = close_each sys t os streams in Leaves r.0 r.1 vfd n
  unfolding close_each
  close_each-Leaves [] t os vfd n l = l
  close_each-Leaves ((dirp, ds) ∷ streams) t os vfd n l =
      close_each-Leaves streams _ _ vfd n (close_fd-Leaves t os ds.vfd vfd n l)

  destroy_all-closed :
      (t : FdTable) (os : Os) (n : ℕ)
      → is_open os n ≡ false
      → is_open (destroy_all sys t os) n ≡ false
  unfolding destroy_all
  destroy_all-closed [] os n h = h
  destroy_all-closed ((vfd, fd) ∷ t) os n h = destroy_all-closed t _ n (destroy-closed fd os n h)

  destroy_all-Leaves :
      (t : FdTable) (os : Os) (vfd : ℤ) (n : ℕ)
      → Leaves t os vfd n
      → is_open (destroy_all sys t os) n ≡ false
  unfolding destroy_all find
  destroy_all-Leaves t os vfd n (inr c) = destroy_all-closed t os n c
  destroy_all-Leaves [] os vfd n (inl (fd, f, h)) = cc
  destroy_all-Leaves ((j, other) ∷ t) os vfd n (inl (fd, f, h)) = elim (Bool-cases (j ==ℤ vfd)) [
    | inl y ↦ destroy_all-closed t _ n (destroy-closes other os n (ground arith))
    | inr y ↦ destroy_all-Leaves t _ vfd n (inl (fd, ground arith, h))
  ]

  module _ (blank : Filesystem) (parse : Memfs → Option Bytes → Option Filesystem) where
    -- Unmounting empties the tables of descriptors, of directory streams, of mount points and of file
    -- systems, drops the current directory, and gives every descriptor that an entry of the descriptor
    -- table held, that of an open directory too, back to the system. The tables of the copied files and
    -- of the system's directories are not part of it.
    pub unmount_root_memfs_lem :
        (s : State Os)
        → let r = unmount_root_memfs sys blank parse s in
          (r.fds ≡ [])
          × (r.streams ≡ [])
          × (r.mounts ≡ [])
          × (r.file_systems ≡ [])
          × (r.cwd ≡ none)
          × ((vfd : ℤ) (fd : Fd) (n : ℕ)
              → find vfd s.fds ≡ some fd
              → fd.handle ≡ some n
              → is_open r.os n ≡ false)
    unfolding unmount_root_memfs release_memfs_resources close_all Dirent.close_all MountTable.clear
        MemfsTable.clear tebako_drop_cwd
    unmount_root_memfs_lem s = (
      refl,
      refl,
      refl,
      refl,
      refl,
      λ vfd fd n f h.
          destroy_all-Leaves _ _ vfd n
            (close_each-Leaves s.streams s.fds s.os vfd n (inl (fd, f, h))),
    )
