-- ===== src/Cwd/Expand.antt =====
-- What the program's paths become while the current directory is within memfs.
use libdwarfs.Prelude.{◌≡◌, ◌⊎◌, List, [], ◌∷◌, ◌++◌, Bytes}
use libdwarfs.Paths.{FsPath, slash}
use libdwarfs.Paths.Normal.{AllNames}
use libdwarfs.Cwd.{tebako_path_assign}

-- The path starts at the root directory.
abbrev pub Rooted : FsPath → Type 0
Rooted p = (es : List Bytes) × (p ≡ slash ∷ es)

-- A text of the root directory, names of entries and at most a trailing separator, cut to the length
-- of the buffer.
abbrev pub IsClean : Bytes → Type 0
IsClean s =
    (ns : List Bytes) × (end : List Bytes) × (s ≡ tebako_path_assign (slash ∷ (ns ++ end)))
    × AllNames ns
    × ((end ≡ []) ⊎ (end ≡ [] ∷ []))
