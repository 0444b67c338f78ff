-- ===== src/Paths/Tests.antt =====
-- Paths as std::filesystem reads and normalizes them.
use libdwarfs.Prelude.{◌≡◌, refl, [], ◌∷◌, ◌++◌, ◌⊎◌, List, Bytes, ascii, bytes_eq}
use libdwarfs.Paths.{
  slash, parse, split, names, generic_string, lexically_normal, normal_loop, normal_step, climb,
  closing, append, append_name, append_all,
}
use libdwarfs.Paths.Normal.{AllNames, normal_absolute}

parse_trailing : parse (ascii "/a//b/") ≡ slash ∷ ascii "a" ∷ ascii "b" ∷ [] ∷ []
unfolding parse split names bytes_eq
parse_trailing = refl

normal_up : generic_string (lexically_normal (parse (ascii "x/./y/../../.."))) ≡ ascii ".."
unfolding generic_string lexically_normal normal_loop normal_step climb closing parse split names
    bytes_eq
normal_up = refl

normal_root : generic_string (lexically_normal (parse (ascii "/../usr/lib/.."))) ≡ ascii "/usr/"
unfolding generic_string lexically_normal normal_loop normal_step climb closing parse split names
    bytes_eq
normal_root = refl

appended : generic_string (append_all (parse (ascii "a/")) (parse (ascii "b/c"))) ≡ ascii "a/b/c"
unfolding generic_string append_all append append_name parse split names bytes_eq
appended = refl

normal_absolute_example :
    (ns : List Bytes) × (end : List Bytes) × (lexically_normal
        (slash ∷ ascii ".." ∷ ascii "usr" ∷ ascii "." ∷ [])
      ≡ slash ∷ (ns ++ end))
    × AllNames ns
    × ((end ≡ []) ⊎ (end ≡ [] ∷ []))
normal_absolute_example = normal_absolute (ascii ".." ∷ ascii "usr" ∷ ascii "." ∷ [])
