-- ===== src/Cmdline/Mounting/Grown.antt =====
-- The mount table while the mount rules of a command line are processed: it only grows.
use libdwarfs.Prelude.{◌≡◌, ◌≢◌, refl, true, Option, none, some, arith}
use libdwarfs.Prelude.Maps.{emplace, find-emplace, beq_refl}
use libdwarfs.MountTable as MountTable
use libdwarfs.MountTable.{MountTable, MountPoint, MountTarget, point, path, memfs, point_eq_iff}
use libdwarfs.IoRoot.{State}

pub insert_keeps :
    (t : MountTable) (p q : MountPoint) (target v : MountTarget)
    → MountTable.get t q ≡ some v
    → MountTable.get (MountTable.insert t p target).0 q ≡ some v
unfolding MountTable.get MountTable.insert
insert_keeps t p q target v h = ground (arith, find-emplace p q target t)

-- What is mounted, or else the new target.
abbrev pub get_or : Option MountTarget → MountTarget → MountTarget
get_or none target = target
get_or (some v) target = v

-- Where nothing was mounted the target is there now, and where something was it stays.
pub insert_there :
    (t : MountTable) (p : MountPoint) (target : MountTarget)
    → MountTable.get (MountTable.insert t p target).0 p ≡ some (get_or (MountTable.get t p) target)
unfolding MountTable.get MountTable.insert
insert_there t p target = ground (arith, find-emplace p p target t, beq_refl p)

pub insert_fresh :
    (t : MountTable) (p : MountPoint) (target : MountTarget)
    → (MountTable.insert t p target).1 ≡ true
    → MountTable.get t p ≡ none
unfolding MountTable.get MountTable.insert emplace
insert_fresh t p target h = ground arith

pub insert_elsewhere :
    (t : MountTable) (p q : MountPoint) (target : MountTarget)
    → p ≢ q
    → MountTable.get (MountTable.insert t p target).0 q ≡ MountTable.get t q
insert_elsewhere t p q target h = (MountTable.insert_lem t p q target).2 h

-- Every mount point keeps its target, and the descriptors stay.
pub record HasGrown {Os : Type 0} (s s' : State Os) : Type 0 where
  pub keeps :
      (p : MountPoint) (v : MountTarget)
      → MountTable.get s.mounts p ≡ some v
      → MountTable.get s'.mounts p ≡ some v
  pub same_fds : s'.fds ≡ s.fds

pub HasGrown-refl : {Os : Type 0} (s : State Os) → HasGrown s s
HasGrown-refl s = record { keeps = λ p v h. h; same_fds = refl }

pub HasGrown-trans : {Os : Type 0} (a b c : State Os) → HasGrown a b → HasGrown b c → HasGrown a c
HasGrown-trans a b c g h = record {
  keeps = λ p v e. h.keeps p v (g.keeps p v e);
  same_fds = cc (g.same_fds, h.same_fds);
}
