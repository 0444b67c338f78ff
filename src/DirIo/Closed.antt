-- ===== src/DirIo/Closed.antt =====
-- A `DIR*` behind its closedir.
use libdwarfs.Prelude.{
  ℕ, ℤ, ◌==ℤ◌, ◌≡◌, refl, false, ◌&&◌, none, some, arith, Bool-cases, Option-cases, inl, inr,
}
use libdwarfs.Prelude.Maps.{find, is_some, nat_eq, find-erase_self}
use libdwarfs.Errno.{fails, ebadf, dwarfs_io_error, dwarfs_invalid_fd}
use libdwarfs.Root.{Root}
use libdwarfs.System.{System}
use libdwarfs.Kfd as Kfd
use libdwarfs.Fd.State.{close_fd}
use libdwarfs.Dirent as Table
use libdwarfs.Dirent.Cache.{Ds}
use libdwarfs.Calls.{answered}
use libdwarfs.DirIo.{
  Dirs, other_dir, tebako_closedir, tebako_readdir, tebako_telldir, tebako_seekdir, tebako_dirfd,
}

module _ (sys : System) (root : Root) where
  -- Neither memfs nor the set of the system's pointers has the pointer.
  abbrev pub IsBad : Dirs sys.Os → ℕ → Type 0
  IsBad s dirp = (find dirp s.streams ≡ none) × (Kfd.check s.kfd dirp ≡ false)

  -- Every call on a bad pointer fails with EBADF.
  abbrev pub Refuses : Dirs sys.Os → ℕ → Type 0
  Refuses s dirp =
      ((tebako_closedir sys root s dirp).1 ≡ answered (fails dwarfs_io_error ebadf))
      × ((tebako_readdir sys root s dirp).1 ≡ answered (fails none ebadf))
      × (tebako_telldir sys root s dirp ≡ answered (fails dwarfs_io_error ebadf))
      × ((loc : ℤ) → (tebako_seekdir sys root s dirp loc).1 ≡ answered (fails tt ebadf))
      × (tebako_dirfd sys root s dirp ≡ answered (fails dwarfs_io_error ebadf))

  bad-Refuses : (s : Dirs sys.Os) (dirp : ℕ) → IsBad s dirp → Refuses s dirp
  unfolding tebako_closedir Table.closedir tebako_readdir Table.readdir tebako_telldir Table.telldir
      tebako_seekdir Table.seekdir tebako_dirfd Table.dirfd other_dir
  bad-Refuses s dirp (a, b) = (
    rw (tebako_closedir, Table.closedir, a, b) refl,
    rw (tebako_readdir, Table.readdir, a, other_dir, b) refl,
    rw (tebako_telldir, Table.telldir, a, other_dir, b) refl,
    λ loc. rw (tebako_seekdir, Table.seekdir, a, other_dir, b) refl,
    rw (tebako_dirfd, Table.dirfd, a, other_dir, b) refl,
  )

  close_memfs :
      (s : Dirs sys.Os) (dirp : ℕ) (ds : Ds)
      → find dirp s.streams ≡ some ds
      → Kfd.check s.kfd dirp ≡ false
      → IsBad (tebako_closedir sys root s dirp).0 dirp
  unfolding tebako_closedir Table.closedir
  close_memfs s dirp ds f k =
      let gone = find-erase_self dirp s.streams in
      elim (Bool-cases ((close_fd sys s.fds s.os ds.vfd).2 ==ℤ dwarfs_invalid_fd)) [
        | inl invalid ↦ rw (tebako_closedir, Table.closedir, f, invalid, k) (gone, k)
        | inr done ↦ rw (tebako_closedir, Table.closedir, f, done) (gone, k)
      ]

  close_system :
      (s : Dirs sys.Os) (dirp : ℕ)
      → find dirp s.streams ≡ none
      → IsBad (tebako_closedir sys root s dirp).0 dirp
  unfolding tebako_closedir Table.closedir
  close_system s dirp f = elim (Bool-cases (Kfd.check s.kfd dirp)) [
    | inl there ↦
        rw (tebako_closedir, Table.closedir, f, there)
          (f, unfold Kfd.check Kfd.remove in ground (arith, find-erase_self dirp s.kfd))
    | inr absent ↦ rw (tebako_closedir, Table.closedir, f, absent) (f, absent)
  ]

  -- For a pointer that is in one of the two tables at most, every call behind closedir fails with EBADF.
  pub closedir_lem :
      (s : Dirs sys.Os) (dirp : ℕ)
      → (is_some (find dirp s.streams) && Kfd.check s.kfd dirp) ≡ false
      → Refuses (tebako_closedir sys root s dirp).0 dirp
  closedir_lem s dirp one =
      bad-Refuses (tebako_closedir sys root s dirp).0 dirp
        (elim (Option-cases (find dirp s.streams)) [
          | inl n ↦ close_system s dirp n
          | inr (ds, f) ↦ close_memfs s dirp ds f (ground (arith, f, one))
        ])
