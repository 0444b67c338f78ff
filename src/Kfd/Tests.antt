-- ===== src/Kfd/Tests.antt =====
-- The set of two pointers.
use libdwarfs.Prelude.{◌≡◌, refl, true, false, [], ◌∷◌}
use libdwarfs.Prelude.Maps.{find, erase}
use libdwarfs.Kfd.{KfdTable, check, remove}

abbrev two : KfdTable
two = (8, tt) ∷ (16, tt) ∷ []

one_removed : (check (remove two 8) 8 ≡ false) × (check (remove two 8) 16 ≡ true)
unfolding check remove find erase
one_removed = (refl, refl)
