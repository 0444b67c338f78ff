-- ===== src/IoRoot/Inodes.antt =====
-- The files and directories of the mounted images, as the descriptor and directory tables see them.
use libdwarfs.Prelude.{ℕ, ℤ, ◌%◌, ◌^◌, ◌≡◌, some, List, Bytes, Bool, arith}
use libdwarfs.Prelude.Maps.{find, int_eq}
use libdwarfs.Root.{Found}
use libdwarfs.Fd.State.{Fd, FdTable}
use libdwarfs.Fd.Read as FdRead
use libdwarfs.Fd.Contents.{HasContent}
use libdwarfs.Dirent.Listed.{HasEntries}
use libdwarfs.Memfs.State.{Memfs}
use libdwarfs.Memfs.Stored.{
  HoldsFile, HoldsDirectory, entries_at, length-entries_at, inode_read_lem, inode_readdir_lem,
}
use libdwarfs.MemfsTable.{MemfsTable, get}
use libdwarfs.MemfsTable.Inode.{get_fs_index}
use libdwarfs.IoRoot.{
  io_root, inode_memfs_call, memfs_call, dwarfs_inode_read, dwarfs_inode_readdir,
}

module _ (stat : Bytes → Bool → Bytes → Found) (relative_stat : ℕ → Bytes → Bool → Bytes → Found)
    (t : MemfsTable) (m : Memfs) where
  -- A file that the mounted image of its inode number holds has its contents for every descriptor.
  pub io_root-HasContent :
      (ino : ℕ) (content : Bytes)
      → get t (get_fs_index (ino % 2 ^ 32)) ≡ some m
      → HoldsFile m.fs (ino % 2 ^ 32) content
      → HasContent (io_root stat relative_stat t) ino content
  unfolding dwarfs_inode_read inode_memfs_call memfs_call
  io_root-HasContent ino content g h = record {
    fits = h.fits;
    reads = λ n off k o.
        rw (dwarfs_inode_read, inode_memfs_call, memfs_call, g)
          (inode_read_lem m (ino % 2 ^ 32) content n off h k o);
  }

  -- A descriptor of a directory that the mounted image of its inode number holds lists the entries of
  -- the directory in the order of the image.
  pub io_root-HasEntries :
      (fds : FdTable) (vfd : ℤ) (fd : Fd) (items : List (ℕ × Bytes))
      → find vfd fds ≡ some fd
      → get t (get_fs_index (fd.st.st_ino % 2 ^ 32)) ≡ some m
      → HoldsDirectory m.fs (fd.st.st_ino % 2 ^ 32) items
      → HasEntries (io_root stat relative_stat t) fds vfd (entries_at m.fs 0 items)
  unfolding dwarfs_inode_readdir FdRead.readdir
  io_root-HasEntries fds vfd fd items f g h =
      let same = length-entries_at m.fs 0 items in
      record {
        small = omega (arith, same, h.small);
        lists = λ start k.
            rw (FdRead.readdir, f, dwarfs_inode_readdir, g, same)
              (inode_readdir_lem m (fd.st.st_ino % 2 ^ 32) items start 50 h
                (omega (arith, same, k)));
      }
