-- ===== src/Calls/Laws.antt =====
-- What the calls by path promise.
use libdwarfs.Prelude.{◌≡◌, refl, true, false, some, [], Bytes, ◌==ℤ◌}
use libdwarfs.Errno.{fails, dwarfs_io_error, dwarfs_s_link_outside, erofs}
use libdwarfs.Root.{Root}
use libdwarfs.Cwd.{Cwd, to_tebako_path}
use libdwarfs.MemfsTable.{MemfsTable}
use libdwarfs.Calls.{answered, tebako_mkdir, tebako_rmdir, tebako_unlink}

module _ (root : Root) (systems : MemfsTable) (cwd : Cwd) where
  -- A path of memfs that no link leads out of is not made, removed or unlinked by the system: each of
  -- the calls answers EROFS. A path outside goes to the system as it is.
  pub calls_read_only :
      (path p : Bytes)
      → to_tebako_path cwd path ≡ some p
      → ((root.stat p true []).ret ==ℤ dwarfs_s_link_outside) ≡ false
      → (tebako_mkdir root systems cwd (some path) ≡ answered (fails dwarfs_io_error erofs))
        × (tebako_rmdir root systems cwd (some path) ≡ answered (fails dwarfs_io_error erofs))
        × (tebako_unlink root systems cwd (some path) ≡ answered (fails dwarfs_io_error erofs))
  unfolding tebako_mkdir tebako_rmdir tebako_unlink
  calls_read_only path p t o =
      (rw (tebako_mkdir, t, o) refl, rw (tebako_rmdir, t, o) refl, rw (tebako_unlink, t, o) refl)
