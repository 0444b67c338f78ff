-- ===== src/Paths/Parts.antt =====
-- std::filesystem::path::filename and parent_path on the text of a path, and its operator/, as
-- src/dl-ctl.cpp and src/tebako-cmdline.cpp use them.
use libdwarfs.Prelude.{Bool, false, [], ◌∷◌, ◌++◌, Bytes, ◌==◌, ◌||◌, take, if◌then◌else◌}

abbrev has_slash : Bytes → Bool
has_slash [] = false
has_slash (c ∷ s) = c == 47 || has_slash s

-- Behind the last separator.
unfoldable pub file_name : Bytes → Bytes
file_name [] = []
file_name (c ∷ s) =
    let rest = file_name s in if has_slash s then rest else if c == 47 then s else c ∷ s

-- Up to the last separator, with it.
unfoldable pub directory_part : Bytes → Bytes
directory_part [] = []
directory_part (c ∷ s) =
    let rest = directory_part s in if has_slash s then c ∷ rest else if c == 47 then c ∷ [] else []

-- Without the separators at the end.
unfoldable pub trim : Bytes → Bytes
trim [] = []
trim (c ∷ s) = elim (trim s) [ [] ↦ if c == 47 then [] else c ∷ [] | d ∷ rest ↦ c ∷ d ∷ rest ]

-- Without the last element. A separator alone is the root directory.
unfoldable pub parent_path : Bytes → Bytes
parent_path p = elim (trim (directory_part p)) [ [] ↦ take 1 (directory_part p) | c ∷ s ↦ c ∷ s ]

-- An absolute path replaces the directory. `dir` does not end in a separator.
unfoldable pub join : Bytes → Bytes → Bytes
join dir [] = dir ++ 47 ∷ []
join dir (c ∷ s) = if c == 47 then c ∷ s else dir ++ 47 ∷ c ∷ s
