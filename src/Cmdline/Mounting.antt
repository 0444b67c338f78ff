-- ===== src/Cmdline/Mounting.antt =====
-- cmdline_args::process_mountpoints, src/tebako-cmdline.cpp: each mount rule names a place in memfs, and
-- behind ':' a directory outside or behind '>' the file of an image. An exception leaves what the rules
-- before it mounted. An image is read into a buffer whose address the mounted file system keeps.
pub mod Grown
pub mod Places
pub mod Laws
mod Tests
use libdwarfs.Prelude.{
  ℕ, ℤ, pos, zero, suc, ◌==ℤ◌, ltb_ℤ, ◌%◌, ◌^◌, Bool, true, false, Option, none, some, List, [],
  ◌∷◌, Bytes, ascii, bytes_eq, ◌==◌, ◌||◌, if◌then◌else◌,
}
use libdwarfs.Errno.{Out, dwarfs_io_error, dwarfs_s_link_outside}
use libdwarfs.Dwarfs.{Stat, Filesystem}
use libdwarfs.Root.{Found}
use libdwarfs.System.{System}
use libdwarfs.Paths.{parse, is_absolute, is_empty}
use libdwarfs.Paths.Parts.{file_name, parent_path}
use libdwarfs.Memfs.State.{Memfs}
use libdwarfs.MemfsTable as MemfsTable
use libdwarfs.MountTable as MountTable
use libdwarfs.MountTable.{path}
use libdwarfs.IoRoot.{State, mount_memfs}
use libdwarfs.Search.{dwarfs_inode_relative_stat}

-- The reasons of std::invalid_argument, in the order of the tests.
pub data Refusal : Type 0 where
  absolute_place incomplete_rule no_parent parent_outside no_file unread_file unmounted
        missing_separator :
      Refusal

-- An std::ifstream of a file: not open, not read to its end, or the address of the buffer and its size.
pub data ImageFile : Type 0 where
  absent unread : ImageFile
  buffer : ℕ → ℕ → ImageFile

-- find_first_of(":>"): what is in front, the separator and what is behind.
unfoldable pub split_rule : Bytes → Option (Bytes × ℕ × Bytes)
split_rule [] = none
split_rule (c ∷ s) =
    let rest = split_rule s in
    if c == 58 || c == 62 then some ([], c, s) else elim rest [
      | none ↦ none
      | some (front, separator, behind) ↦ some (c ∷ front, separator, behind)
    ]

module _ (sys : System) (blank : Filesystem)
    (parse_image : Memfs → Option Bytes → Option Filesystem) (sys_stat : Bytes → Out (ℤ × Stat))
    (image_file : Bytes → ImageFile) where
  -- A state and the exception, if one was thrown.
  abbrev pub Outcome : Type 0
  Outcome = State sys.Os × Option Refusal

  unfoldable pub mount_image : State sys.Os → ℕ → Bytes → Bytes → Outcome
  mount_image s parent name target = elim (image_file target) [
    | absent ↦ (s, some no_file)
    | unread ↦ (s, some unread_file)
    | buffer data_at size ↦
        let (s', ret) =
          mount_memfs sys blank parse_image s data_at size (some (ascii "auto")) parent name in
        if ltb_ℤ ret.value (pos 1) then (s', some unmounted) else (s', none)
  ]

  -- The parent directory was looked up: `st_ino` is stored in a `uint32_t`.
  unfoldable pub mount_in : State sys.Os → Found → Bytes → ℕ → Bytes → Outcome
  mount_in s f name separator target =
      let parent = f.st.st_ino % 2 ^ 32 in
      if f.ret ==ℤ dwarfs_io_error
      then (s, some no_parent)
      else if f.ret ==ℤ dwarfs_s_link_outside
      then (s, some parent_outside)
      else if separator == 58
      then (record s { mounts = (MountTable.insert s.mounts (parent, name) (path target)).0 }, none)
      else mount_image s parent name target

  -- `none` is fuel run out in the search, or no root file system, whose null pointer the code follows.
  unfoldable pub find_parent : ℕ → State sys.Os → Bytes → Option Found
  find_parent fuel s dir = elim (MemfsTable.get s.file_systems 0) [
    | none ↦ none
    | some m ↦
        dwarfs_inode_relative_stat s.mounts s.file_systems s.cwd sys_stat fuel m.dwarfs_root_inode
          dir false []
  ]

  unfoldable pub process_mountpoint : ℕ → State sys.Os → Bytes → Option Outcome
  process_mountpoint fuel s item = elim (split_rule item) [
    | none ↦ some (s, some missing_separator)
    | some (mountpoint, separator, target) ↦
        let name = file_name mountpoint in
        if is_absolute (parse mountpoint)
        then some (s, some absolute_place)
        else if is_empty name || is_empty target
        then some (s, some incomplete_rule)
        else elim (find_parent fuel s (parent_path mountpoint)) [
          | none ↦ none
          | some f ↦ some (mount_in s f name separator target)
        ]
  ]

  -- What follows a rule: the rules behind it, unless it threw.
  abbrev pub and_then : (State sys.Os → Option Outcome) → Outcome → Option Outcome
  and_then next (s, none) = next s
  and_then next (s, some e) = some (s, some e)

  unfoldable pub process_mountpoints : ℕ → State sys.Os → List Bytes → Option Outcome
  process_mountpoints fuel s [] = some (s, none)
  process_mountpoints fuel s (item ∷ items) = elim (process_mountpoint fuel s item) [
    | none ↦ none
    | some r ↦ and_then (λ s'. process_mountpoints fuel s' items) r
  ]
