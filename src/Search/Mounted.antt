-- ===== src/Search/Mounted.antt =====
-- From mount_memfs to the files of the new image: the mount, the search, open and read together.
mod Tests
use libdwarfs.Prelude.{
  ℕ, ℤ, pos, ◌%◌, ◌^◌, ◌<◌, ◌≤◌, ◌≡◌, ◌≢◌, append-nil, [], inl, inr, refl, sym, ◌∙◌, ap, subst,
  false, Option, some, List, ◌∷◌, ◌++◌, Bytes, length, take, ◌==◌, ==_iff, if◌then◌else◌, arith,
  Bool, Bool-cases,
}
use libdwarfs.Errno.{Out, returns}
use libdwarfs.Dwarfs.{Stat, Filesystem}
use libdwarfs.System.{System, IsPosix}
use libdwarfs.Cwd.{to_tebako_path}
use libdwarfs.Paths.{parse}
use libdwarfs.Paths.Append.{AllPlain}
use libdwarfs.Fd.Open.{OpenFlags, wants_write}
use libdwarfs.Fd.Descriptors.{IsBacked}
use libdwarfs.Memfs.State.{Memfs}
use libdwarfs.Memfs.Find.{inode_of}
use libdwarfs.Memfs.Walk.{IsLinkFree, IsUnmounted, walk}
use libdwarfs.Memfs.Across.{walk_across, reaches, across-mounted}
use libdwarfs.Memfs.Across.Avoiding.{Avoids, OnlyAt, walk_across-Avoids}
use libdwarfs.Memfs.Stored.{HoldsFile}
use libdwarfs.MemfsTable as MemfsTable
use libdwarfs.MemfsTable.{MemfsTable}
use libdwarfs.MemfsTable.Inode.{get_fs_index}
use libdwarfs.MemfsTable.Slots.{IsOrdered}
use libdwarfs.MountTable as MountTable
use libdwarfs.MountTable.{MountTable, MountPoint, MountTarget, path, memfs, point_eq, point_eq_iff}
use libdwarfs.IoRoot.{State, mount_memfs}
use libdwarfs.IoRoot.Mounts.{placed, slot, mount_memfs_lem}
use libdwarfs.Calls.{answered}
use libdwarfs.FileIo.{tebako_open, tebako_read}
use libdwarfs.Search.{search_root}
use libdwarfs.Search.Reads.{inside}
use libdwarfs.Search.Across.{IsPlain, open_read_across}

-- The root image with nothing mounted in it, and no links in any image.
pub record IsBare {Os : Type 0} (s : State Os) (root : Memfs) (top : ℕ) : Type 0 where
  pub ordered : IsOrdered s.file_systems
  pub mounted : MemfsTable.get s.file_systems 0 ≡ some root
  pub starts : root.fs.find root.dwarfs_root_inode ≡ some top
  pub link_free : (i : ℕ) (m : Memfs) → MemfsTable.get s.file_systems i ≡ some m → IsLinkFree m.fs
  pub unmounted : IsUnmounted s.mounts

-- The names lead to a directory of the first image that is the mount point's, and behind the mount
-- point to an entry of the second one, without coming across the mount point in between.
pub record LeadsAcross (root other : Memfs) (top start : ℕ) (at : MountPoint)
    (before behind : List Bytes) (view : ℕ) : Type 0 where
  pub dir : ℕ
  pub down : walk root top before ≡ some dir
  pub place : (inode_of root dir) ≡ at.0
  pub clear : Avoids at root top before
  pub starts : other.fs.find other.dwarfs_root_inode ≡ some start
  pub on : walk other start behind ≡ some view
  pub clear_behind : Avoids at other start behind

walk_across-LeadsAcross :
    (mounts : MountTable) (systems : MemfsTable) (root other : Memfs) (top start index : ℕ)
    (at : MountPoint) (before behind : List Bytes) (view : ℕ)
    → OnlyAt mounts at
    → MountTable.get mounts at ≡ some (memfs index)
    → MemfsTable.get systems index ≡ some other
    → LeadsAcross root other top start at before behind view
    → walk_across mounts systems root top (before ++ at.1 ∷ behind) ≡ reaches other view
walk_across-LeadsAcross mounts systems root other top start index at before behind view o g s l =
    let placed_at : MountTable.get mounts (inode_of root l.dir, at.1) ≡ some (memfs index) =
      ap (λ (i : ℕ). MountTable.get mounts (i, at.1)) l.place ∙ g in
    walk_across-Avoids mounts systems at root top l.dir before (at.1 ∷ behind) o l.clear l.down
    ∙ across-mounted mounts systems root l.dir at.1 behind index other start placed_at s l.starts
    ∙ ap (walk_across mounts systems other start) (sym (append-nil behind))
    ∙ walk_across-Avoids mounts systems at other start view behind [] o l.clear_behind l.on

check-unmounted : (t : MountTable) (p : MountPoint) → IsUnmounted t → MountTable.check t p ≡ false
unfolding MountTable.check MountTable.get
check-unmounted t p u = ground (arith, u p.0 p.1)

-- A rule for a path where the only mount point leads to an image.
no_path :
    (mounts : MountTable) (at q : MountPoint) (index : ℕ) (target : Bytes)
    → OnlyAt mounts at
    → MountTable.get mounts at ≡ some (memfs index)
    → MountTable.get mounts q ≢ some (path target)
no_path mounts at q index target o g h = elim (Bool-cases (point_eq at q)) [
  | inl same ↦
      let e : at ≡ q = (point_eq_iff at q).0 same in
      let k : MountTable.get mounts at ≡ some (path target) = ap (MountTable.get mounts) e ∙ h in cc
  | inr other ↦
      let away : at ≢ q = λ e. cc ((point_eq_iff at q).1 e) in let none_there = o q away in cc
]

if_other {ℓ} : {A : Type ℓ} (i j : ℕ) (x y : A) → i ≢ j → (if i == j then x else y) ≡ y
if_other i j x y n = ground (arith, ==_iff i j)

-- One image more, without links.
IsLinkFree-assign :
    (t t' : MemfsTable) (index i : ℕ) (new m : Memfs)
    → (MemfsTable.get t' i ≡ (if index == i then some new else MemfsTable.get t i))
    → IsLinkFree new.fs
    → ((m' : Memfs) → MemfsTable.get t i ≡ some m' → IsLinkFree m'.fs)
    → MemfsTable.get t' i ≡ some m
    → IsLinkFree m.fs
IsLinkFree-assign t t' index i new m e plain old g = elim (Bool-cases (index == i)) [
  | inl same ↦
      let picked : MemfsTable.get t' i ≡ some new = rw same at e in
      let k : new ≡ m = cc in subst (λ x. IsLinkFree x.fs) k plain
  | inr other ↦
      let kept : MemfsTable.get t' i ≡ MemfsTable.get t i = rw other at e in old m (sym kept ∙ g)
]

module _ (sys : System) (posix : IsPosix sys) (blank : Filesystem)
    (parse_image : Memfs → Option Bytes → Option Filesystem) where
  -- What mount_memfs leaves of a bare state, where it found a slot.
  mounted-IsPlain :
      (s : State sys.Os) (root : Memfs) (top data_at size parent : ℕ) (offset : Option Bytes)
      (folder : Bytes) (fs : Filesystem)
      → let index = slot sys blank parse_image s.file_systems data_at size in
        let m = placed sys blank parse_image data_at size index in
        let r = mount_memfs sys blank parse_image s data_at size offset parent folder in
        IsBare s root top
        → index ≢ 0
        → parse_image m offset ≡ some fs
        → IsLinkFree fs
        → IsPlain r.0.mounts r.0.file_systems root top
          × OnlyAt r.0.mounts (parent, folder)
          × (MountTable.get r.0.mounts (parent, folder) ≡ some (memfs index))
          × (MemfsTable.get r.0.file_systems index ≡ some (record m { fs = fs }))
  mounted-IsPlain s root top data_at size parent offset folder fs b n p plain =
      let at : MountPoint = (parent, folder) in
      let index = slot sys blank parse_image s.file_systems data_at size in
      let new : Memfs = record (placed sys blank parse_image data_at size index) { fs = fs } in
      let free = check-unmounted s.mounts at b.unmounted in
      let (value, target, systems, others, same_fds, same_os) =
        mount_memfs_lem sys blank parse_image s data_at size offset folder parent fs b.ordered n
          p in
      let only = λ (q : MountPoint) (away : at ≢ q). others q away ∙ b.unmounted q.0 q.1 in
      let leads = rw free at target in
      (
        record {
          mounted = systems 0 ∙ if_other index 0 _ _ n ∙ b.mounted;
          starts = b.starts;
          tree = record {
            link_free = λ i m g.
                IsLinkFree-assign s.file_systems _ index i new m (systems i) plain (b.link_free i)
                  g;
            absolute = λ inode e text g. absurd (no_path _ at (inode, e) index text only leads g);
          };
        },
        only,
        leads,
        rw ((==_iff index index).1 refl) at (systems index),
      )

  -- Mounting an image into a root image that has nothing mounted, and reading a file of it: no image has
  -- links; one of the slots 1 to 7 is free and the image loads; the path names a place of memfs whose
  -- elements lead down the root image to the directory of the mount point, and behind it down the new
  -- image to a file whose inode number leads back to the slot. Then the result of the mount is the
  -- slot, open with flags that only read gives the descriptor that the system had left, and a read of
  -- fewer than 2^31 bytes gives the first bytes of the file.
  pub mount_open_read :
      (s : State sys.Os) (root : Memfs) (top data_at size parent : ℕ) (offset : Option Bytes)
      (folder : Bytes) (fs : Filesystem) (sys_stat : Bytes → Out (ℤ × Stat))
      (fuel start view n k : ℕ) (before behind : List Bytes) (asked p content : Bytes)
      (flags : OpenFlags) (os' : sys.Os) (is_valid_system : ℤ → Bool)
      → let index = slot sys blank parse_image s.file_systems data_at size in
        let placed_at = placed sys blank parse_image data_at size index in
        let other : Memfs = record placed_at { fs = fs } in
        let r = mount_memfs sys blank parse_image s data_at size offset parent folder in
        let searches = search_root r.0.mounts r.0.file_systems s.cwd sys_stat fuel in
        let opened = tebako_open sys searches s.cwd r.0.fds r.0.os (some asked) flags in
        IsBare s root top
        → index ≢ 0
        → parse_image placed_at offset ≡ some fs
        → IsLinkFree fs
        → to_tebako_path s.cwd asked ≡ some p
        → 17 ≤ length p
        → parse (inside p) ≡ before ++ folder ∷ behind
        → AllPlain (before ++ folder ∷ behind)
        → length (before ++ folder ∷ behind) < fuel
        → LeadsAcross root other top start (parent, folder) before behind view
        → get_fs_index ((fs.getattr view).1.st_ino % 2 ^ 32) ≡ index
        → HoldsFile fs ((fs.getattr view).1.st_ino % 2 ^ 32) content
        → wants_write flags ≡ false
        → flags.o_directory ≡ false
        → IsBacked sys s.fds s.os
        → sys.dup s.os ≡ some (n, os')
        → k < 2 ^ 31
        → (r.1.value ≡ pos index)
          × (opened.2 ≡ answered (returns (pos n)))
          × ((tebako_read is_valid_system searches opened.0 (pos n) k).1
              ≡ answered (returns (pos (length (take k content)), take k content)))
  mount_open_read s root top data_at size parent offset folder fs sys_stat fuel start view n k
        before behind asked p content flags os' valid b slot_free loads plain named_by long split
        named enough l back holds w d backed fresh small =
      let at : MountPoint = (parent, folder) in
      let index = slot sys blank parse_image s.file_systems data_at size in
      let other : Memfs = record (placed sys blank parse_image data_at size index) { fs = fs } in
      let r = (mount_memfs sys blank parse_image s data_at size offset parent folder).0 in
      let (value, target, systems, others, same_fds, same_os) =
        mount_memfs_lem sys blank parse_image s data_at size offset folder parent fs b.ordered
          slot_free loads in
      let (tree, only, leads, there) =
        mounted-IsPlain s root top data_at size parent offset folder fs b slot_free loads plain in
      let reached_at =
        ap (walk_across r.mounts r.file_systems root top) split
        ∙ walk_across-LeadsAcross r.mounts r.file_systems root other top start index at before
            behind view only leads there l in
      let backed_still =
        subst (λ t. IsBacked sys t r.os) (sym same_fds)
          (subst (IsBacked sys s.fds) (sym same_os) backed) in
      let got =
        open_read_across r.mounts r.file_systems s.cwd sys_stat sys posix fuel root other top view n
          k asked p content flags r.fds r.os os' valid tree named_by long
          (subst AllPlain (sym split) named) (subst (λ es. length es < fuel) (sym split) enough)
          reached_at (ap (MemfsTable.get r.file_systems) back ∙ there) holds w d backed_still
          (ap sys.dup same_os ∙ fresh) small in
      (rw (check-unmounted s.mounts at b.unmounted) at value, got.0, got.1)
