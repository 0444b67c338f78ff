-- ===== src/Kfd.antt =====
-- src/tebako-kfd.cpp and include/tebako-kfd.h: the DIR pointers that the system's opendir gave.
mod Tests
use libdwarfs.Prelude.{ℕ, ◌≡◌, refl, Bool, true, false, [], ◌==◌, if◌then◌else◌, arith}
use libdwarfs.Prelude.Maps.{Map, find, assign, erase, is_some, nat_eq, find-assign, find-erase}

-- std::set<uintptr_t>
abbrev pub KfdTable : Type 0
KfdTable = Map ℕ (Unit {0})

unfoldable pub check : KfdTable → ℕ → Bool
check t dirp = is_some (find dirp t)

unfoldable pub clear : KfdTable → KfdTable
clear t = []

unfoldable pub remove : KfdTable → ℕ → KfdTable
remove t dirp = erase dirp t

unfoldable pub insert : KfdTable → ℕ → KfdTable
insert t dirp = assign dirp tt t

-- A pointer is in the set after `insert`, out of it after `erase`, every other pointer stays as it was,
-- and `clear` leaves none.
pub check_lem :
    (t : KfdTable) (i j : ℕ)
    → (check (insert t i) j ≡ (if i == j then true else check t j))
      × (check (remove t i) j ≡ (if i == j then false else check t j))
      × (check (clear t) j ≡ false)
unfolding check insert remove clear
check_lem t i j =
    (ground (arith, find-assign i j tt t), ground (arith, find-erase i j t), unfold find in refl)
