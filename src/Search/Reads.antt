-- ===== src/Search/Reads.antt =====
-- From the path of a file to its bytes: to_tebako_path, the search, open and read together.
use libdwarfs.Prelude.{
  ℕ, ℤ, pos, zero, suc, ◌%◌, ◌^◌, ◌<◌, ◌≤◌, ◌≡◌, refl, ◌∙◌, ap, Bool, true, false, not, Option,
  none, some, [], Bytes, length, take, drop, ltb, ◌==◌, if◌then◌else◌, arith,
}
use libdwarfs.Prelude.Maps.{assign, find-assign_self, int_eq}
use libdwarfs.Errno.{Out, returns, dwarfs_io_error, enoent, erofs, fails}
use libdwarfs.Dwarfs.{Stat, is_lnk}
use libdwarfs.Root.{Found}
use libdwarfs.System.{System, IsPosix}
use libdwarfs.Cwd.{Cwd, to_tebako_path}
use libdwarfs.Paths.{FsPath, parse}
use libdwarfs.Fd.State.{FdTable}
use libdwarfs.Fd.Open.{OpenFlags, open_path, wants_write, settle, refuse}
use libdwarfs.Fd.OpenLaws.{settle-admits}
use libdwarfs.Fd.Descriptors.{IsBacked, admits, new_entry, take_descriptor-some}
use libdwarfs.Fd.Contents.{read_chunk}
use libdwarfs.Memfs.State.{Memfs}
use libdwarfs.Memfs.Find.{missing, unread, find_inode, find_inode_abs, find_inode_root}
use libdwarfs.Memfs.Walk.{IsLinkFree, IsUnmounted, AllNamed, walk, reached, find_inode_lem}
use libdwarfs.Memfs.Stored.{HoldsFile}
use libdwarfs.MemfsTable as MemfsTable
use libdwarfs.MemfsTable.{MemfsTable}
use libdwarfs.MemfsTable.Inode.{get_fs_index}
use libdwarfs.MountTable.{MountTable}
use libdwarfs.IoRoot.Inodes.{io_root-HasContent}
use libdwarfs.Calls.{answered, tebako_stat}
use libdwarfs.FileIo.{tebako_open, tebako_read}
use libdwarfs.Search.{search_root, search_call, stat_back, dwarfs_stat}

-- What is left of a path of memfs behind the mount point.
abbrev pub inside : Bytes → Bytes
inside p = if length p == 17 then drop 17 p else drop 18 p

-- The root image, without links and mount points.
pub record IsPlainRoot (mounts : MountTable) (systems : MemfsTable) (m : Memfs) (top : ℕ)
    : Type 0 where
  pub mounted : MemfsTable.get systems 0 ≡ some m
  pub starts : m.fs.find m.dwarfs_root_inode ≡ some top
  pub link_free : IsLinkFree m.fs
  pub unmounted : IsUnmounted mounts

module _ (mounts : MountTable) (systems : MemfsTable) (cwd : Cwd)
    (sys_stat : Bytes → Out (ℤ × Stat)) where
  reached_abs :
      (back : Bytes → Option Found) (fuel : ℕ) (m : Memfs) (start : ℕ) (sought : FsPath)
      (follow : Bool) (lnk : Bytes) (v : Option ℕ)
      → find_inode mounts systems follow fuel m start sought lnk ≡ some (reached m lnk v)
      → find_inode_abs mounts systems follow back fuel m start sought lnk ≡ some (reached m lnk v)
  unfolding find_inode_abs
  reached_abs back fuel m start sought follow lnk none e = rw (find_inode_abs, e) refl
  reached_abs back fuel m start sought follow lnk (some v) e = rw (find_inode_abs, e) refl

  dwarfs_stat_plain :
      (fuel : ℕ) (m : Memfs) (top : ℕ) (p : Bytes) (follow : Bool) (lnk : Bytes)
      → IsPlainRoot mounts systems m top
      → 17 ≤ length p
      → AllNamed (parse (inside p))
      → length (parse (inside p)) < fuel
      → dwarfs_stat mounts systems cwd sys_stat fuel p follow lnk
        ≡ some (reached m lnk (walk m top (parse (inside p))))
  unfolding dwarfs_stat search_call find_inode_root
  dwarfs_stat_plain zero m top p follow lnk r long named enough = absurd (omega arith)
  dwarfs_stat_plain (suc fuel) m top p follow lnk r long named enough =
      let es = parse (inside p) in
      let back =
        stat_back mounts systems cwd sys_stat
          (λ q. dwarfs_stat mounts systems cwd sys_stat fuel q true []) in
      let tall : ltb (length p) 17 ≡ false = ground arith in
      rw (dwarfs_stat, search_call, r.mounted, find_inode_root, tall)
        (reached_abs back (suc fuel) m m.dwarfs_root_inode es follow lnk (walk m top es) (
          find_inode_lem mounts systems follow (suc fuel) m m.dwarfs_root_inode top lnk es r.starts
            r.link_free r.unmounted named enough))

  search_root-stat :
      (fuel : ℕ) (m : Memfs) (top : ℕ) (p : Bytes) (follow : Bool) (lnk : Bytes)
      → IsPlainRoot mounts systems m top
      → 17 ≤ length p
      → AllNamed (parse (inside p))
      → length (parse (inside p)) < fuel
      → (search_root mounts systems cwd sys_stat fuel).stat p follow lnk
        ≡ reached m lnk (walk m top (parse (inside p)))
  search_root-stat fuel m top p follow lnk r long named enough =
      rw (dwarfs_stat_plain fuel m top p follow lnk r long named enough) refl

  module _ (sys : System) (posix : IsPosix sys) where
    open sys use {Os, dup}

    admits_plain :
        (m : Memfs) (lnk : Bytes) (view : ℕ) (flags : OpenFlags)
        → is_lnk (m.fs.getattr view).1.st_mode ≡ false
        → wants_write flags ≡ false
        → flags.o_directory ≡ false
        → admits flags (reached m lnk (some view)) ≡ true
    admits_plain m lnk view flags plain w d = ground arith

    -- Opening a path that the search finds, and reading from the new descriptor.
    pub found_read :
        (fuel : ℕ) (m : Memfs) (view n k : ℕ) (path p lnk content : Bytes) (flags : OpenFlags)
        (t : FdTable) (os os' : Os) (is_valid_system : ℤ → Bool)
        → let root = search_root mounts systems cwd sys_stat fuel in
          let opened = tebako_open sys root cwd t os (some path) flags in
          is_lnk (m.fs.getattr view).1.st_mode ≡ false
          → to_tebako_path cwd path ≡ some p
          → root.stat p (not flags.o_nofollow) path ≡ reached m lnk (some view)
          → MemfsTable.get systems (get_fs_index ((m.fs.getattr view).1.st_ino % 2 ^ 32)) ≡ some m
          → HoldsFile m.fs ((m.fs.getattr view).1.st_ino % 2 ^ 32) content
          → wants_write flags ≡ false
          → flags.o_directory ≡ false
          → IsBacked sys t os
          → dup os ≡ some (n, os')
          → k < 2 ^ 31
          → (opened.2 ≡ answered (returns (pos n)))
            × ((tebako_read is_valid_system root opened.0 (pos n) k).1
                ≡ answered (returns (pos (length (take k content)), take k content)))
    unfolding tebako_open tebako_read open_path
    found_read fuel m view n k path p lnk content flags t os os' valid plain named_by found index
          holds w d b fresh small =
        let root = search_root mounts systems cwd sys_stat fuel in
        let f = reached m lnk (some view) in
        let opened : open_path sys root t os p flags path ≡ record {
          ret = pos n;
          lnk = lnk;
          errno = none;
          table = assign (pos n) (new_entry f n) t;
          os = os';
        } =
          ap (settle sys t os flags) found
          ∙ settle-admits sys posix t os flags f (admits_plain m lnk view flags plain w d)
          ∙ take_descriptor-some sys posix t os os' n f b fresh in
        let has =
          io_root-HasContent root.stat root.inode_relative_stat systems m
            (m.fs.getattr view).1.st_ino content index holds in
        let got =
          read_chunk root content (assign (pos n) (new_entry f n) t) (pos n) (new_entry f n) k has
            (find-assign_self (pos n) (new_entry f n) t) small (omega arith) in
        (
          rw (tebako_open, named_by, opened) refl,
          rw (tebako_open, named_by, opened, tebako_read, got.0) refl,
        )

    -- Opening the path of a file of the root image, and reading from the new descriptor: the image has
    -- no links, and no mount points are there; `p` is the path of memfs that the text names, without
    -- empty elements behind the mount point, and with fewer elements than the fuel; the walk reaches a
    -- file that the image holds; the flags only read, and the system has the descriptor `n` left. Then
    -- open answers `n`, and a read of fewer than 2^31 bytes gives the first bytes of the file.
    pub open_read :
        (fuel : ℕ) (m : Memfs) (top view n k : ℕ) (path p content : Bytes) (flags : OpenFlags)
        (t : FdTable) (os os' : Os) (is_valid_system : ℤ → Bool)
        → IsPlainRoot mounts systems m top
        → to_tebako_path cwd path ≡ some p
        → 17 ≤ length p
        → AllNamed (parse (inside p))
        → length (parse (inside p)) < fuel
        → walk m top (parse (inside p)) ≡ some view
        → MemfsTable.get systems (get_fs_index ((m.fs.getattr view).1.st_ino % 2 ^ 32)) ≡ some m
        → HoldsFile m.fs ((m.fs.getattr view).1.st_ino % 2 ^ 32) content
        → wants_write flags ≡ false
        → flags.o_directory ≡ false
        → IsBacked sys t os
        → dup os ≡ some (n, os')
        → k < 2 ^ 31
        → let root = search_root mounts systems cwd sys_stat fuel in
          let opened = tebako_open sys root cwd t os (some path) flags in
          (opened.2 ≡ answered (returns (pos n)))
          × ((tebako_read is_valid_system root opened.0 (pos n) k).1
              ≡ answered (returns (pos (length (take k content)), take k content)))
    open_read fuel m top view n k path p content flags t os os' valid r named_by long named enough
          at index holds w d b fresh small =
        found_read fuel m view n k path p path content flags t os os' valid (r.link_free.plain view)
          named_by
          (search_root-stat fuel m top p (not flags.o_nofollow) path r long named enough
            ∙ ap (reached m path) at)
          index holds w d b fresh small

    -- In a root image without links and mount points, a path of memfs without empty elements, and with
    -- fewer of them than the fuel, that the walk does not reach is not opened: the table and the system
    -- stay, and the call fails, with ENOENT if the flags only read, and with EROFS if not. Its
    -- attributes are not there either.
    pub open_missing :
        (fuel : ℕ) (m : Memfs) (top : ℕ) (path p : Bytes) (flags : OpenFlags) (t : FdTable)
        (os : Os)
        → IsPlainRoot mounts systems m top
        → to_tebako_path cwd path ≡ some p
        → 17 ≤ length p
        → AllNamed (parse (inside p))
        → length (parse (inside p)) < fuel
        → walk m top (parse (inside p)) ≡ none
        → let root = search_root mounts systems cwd sys_stat fuel in
          (tebako_open sys root cwd t os (some path) flags ≡ (
            t,
            os,
            answered (fails dwarfs_io_error (if wants_write flags then erofs else enoent)),
          ))
          × (tebako_stat root systems cwd (some path)
              ≡ answered (fails (dwarfs_io_error, unread) enoent))
    unfolding tebako_open open_path settle tebako_stat
    open_missing fuel m top path p flags t os r named_by long named enough at =
        let root = search_root mounts systems cwd sys_stat fuel in
        let found : (follow : Bool) (lnk : Bytes) → root.stat p follow lnk ≡ missing lnk =
          λ follow lnk.
            search_root-stat fuel m top p follow lnk r long named enough ∙ ap (reached m lnk) at in
        let refused : open_path sys root t os p flags path
            ≡ refuse sys t os path (if wants_write flags then erofs else enoent) =
          ap (settle sys t os flags) (found (not flags.o_nofollow) path) in
        (rw (tebako_open, named_by, refused) refl, rw (tebako_stat, named_by, found true []) refl)
