-- ===== src/MountTable.antt =====
-- src/tebako-mount-table.cpp and include/tebako-mount-table.h: what is mounted at a name in a
-- directory: a path, or a file system of the memfs table. The lock of folly::Synchronized makes each
-- call one step, and the overloads with two arguments make the pair.
mod Tests
use libdwarfs.Prelude.{
  ℕ, ◌≡◌, refl, ap, ◌↔◌, ◌≢◌, not, Bool, true, false, Option, none, some, [], ◌==◌, ◌&&◌, ==_iff,
  Bytes, bytes_eq, bytes_eq_refl, bytes_eq_sound, if◌then◌else◌, arith,
}
use libdwarfs.Prelude.Maps.{
  Eq, Map, find, assign, erase, emplace, is_some, find-emplace, find-erase_self, beq_refl,
}

abbrev pub MountPoint : Type 0
MountPoint = ℕ × Bytes

-- std::variant<std::string, uint32_t>
pub data MountTarget : Type 0 where
  path : Bytes → MountTarget
  memfs : ℕ → MountTarget

abbrev pub point_eq : MountPoint → MountPoint → Bool
point_eq a b = a.0 == b.0 && bytes_eq a.1 b.1

pub point_eq_iff : (a b : MountPoint) → (point_eq a b ≡ true) ↔ (a ≡ b)
point_eq_iff (i, s) (j, t) =
    (λ h. ground (arith, bytes_eq_sound s t), λ h. ground (arith, bytes_eq_refl s))

instance abbrev pub point : Eq MountPoint
point = record { beq = point_eq; beq_iff = point_eq_iff }

abbrev pub MountTable : Type 0
MountTable = Map MountPoint MountTarget

unfoldable pub check : MountTable → MountPoint → Bool
check t p = is_some (find p t)

unfoldable pub clear : MountTable → MountTable
clear t = []

unfoldable pub remove : MountTable → MountPoint → MountTable
remove t p = erase p t

unfoldable pub get : MountTable → MountPoint → Option MountTarget
get t p = find p t

unfoldable pub insert : MountTable → MountPoint → MountTarget → MountTable × Bool
insert t p target = emplace p target t

-- A mount point keeps its first target: `insert` reports whether the point was free, writes only
-- then, and leaves every other point as it was. After `erase` the point is free again.
pub insert_lem :
    (t : MountTable) (p q : MountPoint) (target : MountTarget)
    → ((insert t p target).1 ≡ not (check t p))
      × (get (insert t p target).0 p ≡ (if check t p then get t p else some target))
      × (p ≢ q → get (insert t p target).0 q ≡ get t q)
      × ((insert (remove t p) p target).1 ≡ true)
unfolding insert check get remove emplace
insert_lem t p q target = (
  ground arith,
  ground (arith, find-emplace p p target t, beq_refl p),
  λ h. ground (arith, find-emplace p q target t, point_eq_iff p q),
  ground (arith, find-erase_self p t),
)
