-- ===== src/Search/Across.antt =====
-- The searches by path over all mounted images, and what open makes of them.
mod Tests
use libdwarfs.Prelude.{
  ℕ, ℤ, pos, zero, suc, ◌%◌, ◌^◌, ◌<◌, ◌≤◌, ◌≡◌, refl, ap, Bool, true, false, not, Option, none,
  some, [], Bytes, length, take, ltb, subst, sym, arith,
}
use libdwarfs.Errno.{Out, returns, dwarfs_s_link_outside}
use libdwarfs.Dwarfs.{Stat}
use libdwarfs.Root.{Found}
use libdwarfs.System.{System, IsPosix}
use libdwarfs.Cwd.{Cwd, to_tebako_path, is_tebako_path}
use libdwarfs.Paths.{FsPath, parse}
use libdwarfs.Paths.Append.{AllPlain}
use libdwarfs.Fd.State.{FdTable}
use libdwarfs.Fd.Open.{OpenFlags, open_path, wants_write, settle}
use libdwarfs.Fd.Descriptors.{IsBacked}
use libdwarfs.Memfs.State.{Memfs}
use libdwarfs.Memfs.Find.{missing, find_inode, find_inode_abs, find_inode_root}
use libdwarfs.Memfs.Walk.{reached}
use libdwarfs.Memfs.Across.Rounds.{find_inode_across}
use libdwarfs.Memfs.Across.{Goal, nowhere, reaches, leaves, landed, walk_across, IsPlainTree}
use libdwarfs.Memfs.Stored.{HoldsFile}
use libdwarfs.MemfsTable as MemfsTable
use libdwarfs.MemfsTable.{MemfsTable}
use libdwarfs.MemfsTable.Inode.{get_fs_index}
use libdwarfs.MountTable.{MountTable}
use libdwarfs.Calls.{answered, passed, tebako_stat}
use libdwarfs.FileIo.{tebako_open, tebako_read}
use libdwarfs.Search.{search_root, search_call, stat_back, dwarfs_stat}
use libdwarfs.Search.Reads.{inside, found_read}

-- The root image and its top, and no links anywhere.
pub record IsPlain (mounts : MountTable) (systems : MemfsTable) (m : Memfs) (top : ℕ) : Type 0 where
  pub mounted : MemfsTable.get systems 0 ≡ some m
  pub starts : m.fs.find m.dwarfs_root_inode ≡ some top
  pub tree : IsPlainTree mounts systems

-- A path that leads out of memfs does not lead back.
abbrev pub StaysOut : Goal → Type 0
StaysOut nowhere = Unit {0}
StaysOut (reaches m view) = Unit {0}
StaysOut (leaves m view text) = is_tebako_path text ≡ false

-- What a caller of the search sees.
abbrev pub seen : Bytes → Goal → Found
seen lnk nowhere = missing lnk
seen lnk (reaches m view) = reached m lnk (some view)
seen lnk (leaves m view text) = record {
  ret = dwarfs_s_link_outside;
  st = (m.fs.getattr view).1;
  lnk = text;
  errno = none;
}

module _ (mounts : MountTable) (systems : MemfsTable) (cwd : Cwd)
    (sys_stat : Bytes → Out (ℤ × Stat)) where
  seen_abs :
      (back : Bytes → Option Found) (fuel : ℕ) (m : Memfs) (start : ℕ) (sought : FsPath)
      (follow : Bool) (lnk : Bytes) (goal : Goal)
      → find_inode mounts systems follow fuel m start sought lnk ≡ some (landed lnk goal)
      → StaysOut goal
      → find_inode_abs mounts systems follow back fuel m start sought lnk ≡ some (seen lnk goal)
  unfolding find_inode_abs
  seen_abs back fuel m start sought follow lnk nowhere e o = rw (find_inode_abs, e) refl
  seen_abs back fuel m start sought follow lnk (reaches m' v) e o = rw (find_inode_abs, e) refl
  seen_abs back fuel m start sought follow lnk (leaves m' v text) e o =
      rw (find_inode_abs, e, o) refl

  -- Where no mounted image has symbolic links and the mount rules name absolute paths of the system, and for
  -- a path of memfs of plain elements, fewer than the fuel, that no rule leads out of memfs and back into
  -- it: the search ends, and gives what the walk across the mount points reaches.
  pub dwarfs_stat_across :
      (fuel : ℕ) (m : Memfs) (top : ℕ) (p : Bytes) (follow : Bool) (lnk : Bytes)
      → let goal = walk_across mounts systems m top (parse (inside p)) in
        IsPlain mounts systems m top
        → 17 ≤ length p
        → AllPlain (parse (inside p))
        → length (parse (inside p)) < fuel
        → StaysOut goal
        → dwarfs_stat mounts systems cwd sys_stat fuel p follow lnk ≡ some (seen lnk goal)
  unfolding dwarfs_stat search_call find_inode_root
  dwarfs_stat_across zero m top p follow lnk r long named enough out = absurd (omega arith)
  dwarfs_stat_across (suc fuel) m top p follow lnk r long named enough out =
      let es = parse (inside p) in
      let back =
        stat_back mounts systems cwd sys_stat
          (λ q. dwarfs_stat mounts systems cwd sys_stat fuel q true []) in
      let tall : ltb (length p) 17 ≡ false = ground arith in
      let goal = walk_across mounts systems m top es in
      let link_free = r.tree.link_free 0 m r.mounted in
      rw (dwarfs_stat, search_call, r.mounted, find_inode_root, tall)
        (seen_abs back (suc fuel) m m.dwarfs_root_inode es follow lnk goal
          (find_inode_across mounts systems follow (suc fuel) m m.dwarfs_root_inode top lnk es
            r.starts link_free r.tree named enough)
          out)

  search_root-seen :
      (fuel : ℕ) (m : Memfs) (top : ℕ) (p : Bytes) (follow : Bool) (lnk : Bytes) (goal : Goal)
      → IsPlain mounts systems m top
      → 17 ≤ length p
      → AllPlain (parse (inside p))
      → length (parse (inside p)) < fuel
      → walk_across mounts systems m top (parse (inside p)) ≡ goal
      → StaysOut goal
      → (search_root mounts systems cwd sys_stat fuel).stat p follow lnk ≡ seen lnk goal
  search_root-seen fuel m top p follow lnk goal r long named enough at out =
      rw
        (dwarfs_stat_across fuel m top p follow lnk r long named enough
          (subst StaysOut (sym at) out))
        (ap (seen lnk) at)

  module _ (sys : System) (posix : IsPosix sys) where
    open sys use {Os, dup}

    -- Opening the path of a file of any mounted image, and reading from the new descriptor: no image has
    -- links, and the rules name absolute paths of the system; `p` is the path of memfs that the text
    -- names, of plain elements behind the mount point, fewer than the fuel; the walk across the mount
    -- points reaches a file of an image that its inode number leads back to; the flags only read, and
    -- the system has the descriptor `n` left. Then open answers `n`, and a read of fewer than 2^31
    -- bytes gives the first bytes of the file.
    pub open_read_across :
        (fuel : ℕ) (root m : Memfs) (top view n k : ℕ) (path p content : Bytes) (flags : OpenFlags)
        (t : FdTable) (os os' : Os) (is_valid_system : ℤ → Bool)
        → IsPlain mounts systems root top
        → to_tebako_path cwd path ≡ some p
        → 17 ≤ length p
        → AllPlain (parse (inside p))
        → length (parse (inside p)) < fuel
        → walk_across mounts systems root top (parse (inside p)) ≡ reaches m view
        → MemfsTable.get systems (get_fs_index ((m.fs.getattr view).1.st_ino % 2 ^ 32)) ≡ some m
        → HoldsFile m.fs ((m.fs.getattr view).1.st_ino % 2 ^ 32) content
        → wants_write flags ≡ false
        → flags.o_directory ≡ false
        → IsBacked sys t os
        → dup os ≡ some (n, os')
        → k < 2 ^ 31
        → let searches = search_root mounts systems cwd sys_stat fuel in
          let opened = tebako_open sys searches cwd t os (some path) flags in
          (opened.2 ≡ answered (returns (pos n)))
          × ((tebako_read is_valid_system searches opened.0 (pos n) k).1
              ≡ answered (returns (pos (length (take k content)), take k content)))
    open_read_across fuel root m top view n k path p content flags t os os' valid r named_by long
          named enough at index holds w d b fresh small =
        found_read mounts systems cwd sys_stat sys posix fuel m view n k path p path content flags t
          os os' valid ((r.tree.link_free _ m index).plain view) named_by
          (search_root-seen fuel root top p (not flags.o_nofollow) path (reaches m view) r long
            named enough at tt)
          index holds w d b fresh small

  module _ (sys : System) where
    open sys use {Os}

    -- Where no mounted image has symbolic links and the mount rules name absolute paths of the system: a
    -- path of memfs, of plain elements and fewer than the fuel, that a rule leads out of memfs. Then open,
    -- whatever its flags, leaves the table and the system as they are and goes to the system with the
    -- path behind the rule's directory, and so does stat.
    pub open_leaves :
        (fuel : ℕ) (root m : Memfs) (top view : ℕ) (path p text : Bytes) (flags : OpenFlags)
        (t : FdTable) (os : Os)
        → IsPlain mounts systems root top
        → to_tebako_path cwd path ≡ some p
        → 17 ≤ length p
        → AllPlain (parse (inside p))
        → length (parse (inside p)) < fuel
        → walk_across mounts systems root top (parse (inside p)) ≡ leaves m view text
        → is_tebako_path text ≡ false
        → let searches = search_root mounts systems cwd sys_stat fuel in
          (tebako_open sys searches cwd t os (some path) flags ≡ (t, os, passed (none, text)))
          × (tebako_stat searches systems cwd (some path) ≡ passed text)
    unfolding tebako_open open_path settle tebako_stat
    open_leaves fuel root m top view path p text flags t os r named_by long named enough at out =
        let searches = search_root mounts systems cwd sys_stat fuel in
        let found : (follow : Bool) (lnk : Bytes)
            → searches.stat p follow lnk ≡ seen lnk (leaves m view text) =
          λ follow lnk.
            search_root-seen fuel root top p follow lnk (leaves m view text) r long named enough at
              out in
        let passed_on : open_path sys searches t os p flags path
            ≡ record { ret = dwarfs_s_link_outside; lnk = text; errno = none; table = t; os = os } =
          ap (settle sys t os flags) (found (not flags.o_nofollow) path) in
        (rw (tebako_open, named_by, passed_on) refl, rw (tebako_stat, named_by, found true []) refl)
