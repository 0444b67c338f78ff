-- ===== src/Fd/State.antt =====
-- `tebako_fd` and the table of `sync_tebako_fdtable` (include/tebako-fd.h), with the operations of
-- src/tebako-fd.cpp that only look a descriptor up. Each call holds the table's lock to its end. It is the one for
-- readers but in open and close: what threads do to one descriptor at the same time is in Fd.Shared.
use libdwarfs.Prelude.{ℕ, ℤ, Bool, Option, none, some, [], ◌∷◌, ◌/◌, ◌%◌, ◌*◌, ◌+◌}
use libdwarfs.Prelude.Maps.{Map, find, assign, erase, is_some, int_eq}
use libdwarfs.Errno.{dwarfs_io_continue, dwarfs_invalid_fd}
use libdwarfs.Dwarfs.{Stat}
use libdwarfs.System.{System}

-- `position` is the field `pos`, a `uint64_t`. The handle is the system's descriptor, if one is held.
pub record Fd : Type 0 where
  pub st : Stat
  pub position : ℕ
  pub lock : ℕ
  pub handle : Option ℕ

-- std::map<int, std::shared_ptr<tebako_fd>>
abbrev pub FdTable : Type 0
FdTable = Map ℤ Fd

unfoldable pub is_valid_file_descriptor : FdTable → ℤ → Bool
is_valid_file_descriptor t vfd = is_some (find vfd t)

-- The result of fstat is `*st`, where it is written.
unfoldable pub fstat : FdTable → ℤ → ℤ × Option Stat
fstat t vfd = elim (find vfd t) [
  | none ↦ (dwarfs_invalid_fd, none)
  | some fd ↦ (dwarfs_io_continue, some fd.st)
]

-- operation & ~(LOCK_NB | LOCK_UN): the bits 4 and 8 are cleared.
unfoldable pub lock_bits : ℕ → ℕ
lock_bits operation = operation / 16 * 16 + operation % 4

unfoldable pub flock : FdTable → ℤ → ℕ → FdTable × ℤ
flock t vfd operation = elim (find vfd t) [
  | none ↦ (t, dwarfs_invalid_fd)
  | some fd ↦ (assign vfd (record fd { lock = lock_bits operation }) t, dwarfs_io_continue)
]

module _ (sys : System) where
  open sys use {Os, close}

  -- ~tebako_fd, which runs when the table drops its pointer.
  unfoldable pub destroy : Option Fd → Os → Os
  destroy none os = os
  destroy (some fd) os = elim fd.handle [ none ↦ os | some h ↦ close os h ]

  -- (*table)[vfd] = std::move(fd): an entry that stood there is destroyed.
  unfoldable pub store : FdTable → Os → ℤ → Fd → FdTable × Os
  store t os vfd fd = (assign vfd fd t, destroy (find vfd t) os)

  unfoldable pub close_fd : FdTable → Os → ℤ → FdTable × Os × ℤ
  close_fd t os vfd = elim (find vfd t) [
    | none ↦ (t, os, dwarfs_invalid_fd)
    | some fd ↦ (erase vfd t, destroy (some fd) os, dwarfs_io_continue)
  ]

  unfoldable pub destroy_all : FdTable → Os → Os
  destroy_all [] os = os
  destroy_all ((vfd, fd) ∷ t) os = destroy_all t (destroy (some fd) os)

  unfoldable pub close_all : FdTable → Os → FdTable × Os
  close_all t os = ([], destroy_all t os)
