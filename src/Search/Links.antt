-- ===== src/Search/Links.antt =====
-- The calls by path and what a path resolves to, through symbolic links and mount points.
mod Tests
use libdwarfs.Prelude.{
  ℕ, ℤ, pos, zero, suc, ◌%◌, ◌^◌, ◌<◌, ◌≤◌, ◌+◌, ◌≡◌, refl, Bool, true, false, not, none, some,
  Bytes, length, take, ltb, arith, Option, [],
}
use libdwarfs.Errno.{Out, returns}
use libdwarfs.Dwarfs.{Stat}
use libdwarfs.System.{System, IsPosix}
use libdwarfs.Root.{Found}
use libdwarfs.Cwd.{Cwd, to_tebako_path}
use libdwarfs.Paths.{FsPath, parse}
use libdwarfs.Paths.Ordinary.{AllEntries}
use libdwarfs.Fd.State.{FdTable}
use libdwarfs.Fd.Open.{OpenFlags, wants_write}
use libdwarfs.Fd.Descriptors.{IsBacked}
use libdwarfs.Memfs.State.{Memfs}
use libdwarfs.Memfs.Find.{find_inode, find_inode_abs, find_inode_root}
use libdwarfs.Memfs.Walk.{reached}
use libdwarfs.Memfs.Links.{IsNode, Resolves, steps}
use libdwarfs.Memfs.Links.Followed.{find_inode-Resolves, Resolves-IsNode}
use libdwarfs.Memfs.Stored.{HoldsFile}
use libdwarfs.MemfsTable as MemfsTable
use libdwarfs.MemfsTable.{MemfsTable}
use libdwarfs.MemfsTable.Inode.{get_fs_index}
use libdwarfs.MountTable.{MountTable}
use libdwarfs.Calls.{answered, tebako_stat}
use libdwarfs.FileIo.{tebako_open, tebako_read}
use libdwarfs.Search.{search_root, search_call, stat_back, dwarfs_stat}
use libdwarfs.Search.Reads.{inside, found_read}

-- The root image, and the top of it, which is no link.
pub record IsRooted (systems : MemfsTable) (m : Memfs) (top : ℕ) : Type 0 where
  pub mounted : MemfsTable.get systems 0 ≡ some m
  pub starts : m.fs.find m.dwarfs_root_inode ≡ some top
  pub node : IsNode m.fs top

module _ (mounts : MountTable) (systems : MemfsTable) where
  -- What is behind the mount point, names other than "." and "..", resolves to this inode.
  pub record Names (p : Bytes) (m' : Memfs) (w : ℕ) : Type 0 where
    pub root : Memfs
    pub top : ℕ
    pub rooted : IsRooted systems root top
    pub long : 17 ≤ length p
    pub entries : AllEntries (parse (inside p))
    pub resolves : Resolves mounts systems root top (parse (inside p)) m' w

  Names-IsNode : (p : Bytes) (m' : Memfs) (w : ℕ) → Names p m' w → IsNode m'.fs w
  Names-IsNode p m' w h = Resolves-IsNode h.resolves h.rooted.node

module _ (mounts : MountTable) (systems : MemfsTable) (cwd : Cwd)
    (sys_stat : Bytes → Out (ℤ × Stat)) where
  found_abs :
      (back : Bytes → Option Found) (fuel : ℕ) (m m' : Memfs) (start w : ℕ) (sought : FsPath)
      (lnk lnk' : Bytes)
      → find_inode mounts systems true fuel m start sought lnk ≡ some (reached m' lnk' (some w))
      → find_inode_abs mounts systems true back fuel m start sought lnk
        ≡ some (reached m' lnk' (some w))
  unfolding find_inode_abs
  found_abs back fuel m m' start w sought lnk lnk' e = rw (find_inode_abs, e) refl

  dwarfs_stat_found :
      (fuel : ℕ) (m m' : Memfs) (w : ℕ) (p lnk lnk' : Bytes)
      → MemfsTable.get systems 0 ≡ some m
      → 17 ≤ length p
      → 1 ≤ fuel
      → find_inode mounts systems true fuel m m.dwarfs_root_inode (parse (inside p)) lnk
        ≡ some (reached m' lnk' (some w))
      → dwarfs_stat mounts systems cwd sys_stat fuel p true lnk ≡ some (reached m' lnk' (some w))
  unfolding dwarfs_stat search_call find_inode_root
  dwarfs_stat_found zero m m' w p lnk lnk' g long some_fuel found = absurd (omega arith)
  dwarfs_stat_found (suc fuel) m m' w p lnk lnk' g long some_fuel found =
      let back =
        stat_back mounts systems cwd sys_stat
          (λ q. dwarfs_stat mounts systems cwd sys_stat fuel q true []) in
      let tall : ltb (length p) 17 ≡ false = ground arith in
      rw (dwarfs_stat, search_call, g, find_inode_root, tall)
        (found_abs back (suc fuel) m m' m.dwarfs_root_inode w (parse (inside p)) lnk lnk' found)

  -- The search gives the inode that a path of memfs names, and some text for the last link.
  search_root-Names :
      (fuel : ℕ) (p : Bytes) (m' : Memfs) (w : ℕ) (lnk : Bytes) (h : Names mounts systems p m' w)
      → steps mounts systems h.resolves < fuel
      → (lnk' : Bytes) × ((search_root mounts systems cwd sys_stat fuel).stat p true lnk
          ≡ reached m' lnk' (some w))
  search_root-Names fuel p m' w lnk h enough =
      let m = h.root in
      let (lnk', found) =
        find_inode-Resolves mounts systems fuel m m' m.dwarfs_root_inode h.top w lnk
          (parse (inside p)) h.resolves h.rooted.starts h.rooted.node h.entries enough in
      (
        lnk',
        rw (dwarfs_stat_found fuel m m' w p lnk lnk' h.rooted.mounted h.long (omega arith) found)
            refl,
      )

  tebako_stat_resolves :
      (fuel : ℕ) (path p : Bytes) (m' : Memfs) (w : ℕ) (h : Names mounts systems p m' w)
      → to_tebako_path cwd path ≡ some p
      → steps mounts systems h.resolves < fuel
      → tebako_stat (search_root mounts systems cwd sys_stat fuel) systems cwd (some path)
        ≡ answered (returns (pos 0, (m'.fs.getattr w).1))
  unfolding tebako_stat
  tebako_stat_resolves fuel path p m' w h named_by enough =
      rw (tebako_stat, named_by, (search_root-Names fuel p m' w [] h enough).1) refl

  module _ (sys : System) (posix : IsPosix sys) where
    open sys use {Os, dup}

    -- A path of memfs that leads to a file, down entries, into mounted images and through symbolic links whose
    -- targets are relative paths of names, none of them "." or "..", with more fuel than the resolution
    -- has steps: the inode number of the file leads back to its
    -- image; the flags only read and do not refuse links, and the system has the descriptor `n` left.
    -- Then stat answers the attributes of the file, open answers `n`, and a read of fewer than 2^31
    -- bytes from the new descriptor gives the first bytes of the file.
    pub open_read_resolves :
        (fuel : ℕ) (m' : Memfs) (w n k : ℕ) (path p content : Bytes) (flags : OpenFlags)
        (t : FdTable) (os os' : Os) (is_valid_system : ℤ → Bool) (h : Names mounts systems p m' w)
        → to_tebako_path cwd path ≡ some p
        → steps mounts systems h.resolves < fuel
        → MemfsTable.get systems (get_fs_index ((m'.fs.getattr w).1.st_ino % 2 ^ 32)) ≡ some m'
        → HoldsFile m'.fs ((m'.fs.getattr w).1.st_ino % 2 ^ 32) content
        → wants_write flags ≡ false
        → flags.o_directory ≡ false
        → flags.o_nofollow ≡ false
        → IsBacked sys t os
        → dup os ≡ some (n, os')
        → k < 2 ^ 31
        → let root = search_root mounts systems cwd sys_stat fuel in
          let opened = tebako_open sys root cwd t os (some path) flags in
          (tebako_stat root systems cwd (some path)
            ≡ answered (returns (pos 0, (m'.fs.getattr w).1)))
          × (opened.2 ≡ answered (returns (pos n)))
          × ((tebako_read is_valid_system root opened.0 (pos n) k).1
              ≡ answered (returns (pos (length (take k content)), take k content)))
    open_read_resolves fuel m' w n k path p content flags t os os' valid h named_by enough index
          holds wr d fl b fresh small =
        let (lnk', found) = search_root-Names fuel p m' w path h enough in
        let (opened, content_read) =
          found_read mounts systems cwd sys_stat sys posix fuel m' w n k path p lnk' content flags t
            os os' valid (Names-IsNode mounts systems p m' w h).plain named_by (rw fl found) index
            holds wr d b fresh small in
        (tebako_stat_resolves fuel path p m' w h named_by enough, opened, content_read)
