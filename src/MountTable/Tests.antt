-- ===== src/MountTable/Tests.antt =====
-- A table with one mount point.
use libdwarfs.Prelude.{◌≡◌, refl, false, some, [], ◌∷◌, ascii, bytes_eq}
use libdwarfs.Prelude.Maps.{find, assign, emplace}
use libdwarfs.MountTable.{MountTable, MountPoint, memfs, path, insert, get}

abbrev mounted : MountTable
mounted = ((0, ascii "usr"), memfs 2) ∷ []

abbrev usr : MountPoint
usr = (0, ascii "usr")

abbrev bin : MountPoint
bin = (1, ascii "bin")

-- The first target stays.
taken : (insert mounted usr (path (ascii "/opt"))).1 ≡ false
unfolding insert emplace find bytes_eq
taken = refl

free : get (insert mounted bin (path (ascii "/opt"))).0 bin ≡ some (path (ascii "/opt"))
unfolding insert get emplace assign find bytes_eq
free = refl
