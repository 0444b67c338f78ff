-- ===== src/Paths.antt =====
-- std::filesystem::path, as src/tebako-memfs.cpp and src/tebako-io-helpers.cpp use it on POSIX: a path is
-- the list of the elements that its iterator gives. The first element of an absolute path is "/", and
-- the last element of a path that ends in a separator is empty.
pub mod Append
pub mod Normal
pub mod Ordinary
pub mod Parts
mod Tests
use libdwarfs.Prelude.{
  ℕ, Bool, true, false, not, ◌&&◌, ◌||◌, List, [], ◌∷◌, ◌++◌, Bytes, ascii, bytes_eq, ◌==◌,
  if◌then◌else◌,
}

abbrev pub FsPath : Type 0
FsPath = List Bytes

abbrev pub slash : Bytes
slash = ascii "/"

abbrev pub is_empty : Bytes → Bool
is_empty [] = true
is_empty (c ∷ s) = false

abbrev pub put : ℕ → List Bytes → List Bytes
put c [] = (c ∷ []) ∷ []
put c (x ∷ xs) = (c ∷ x) ∷ xs

-- The pieces between the separators.
unfoldable pub split : Bytes → List Bytes
split [] = [] ∷ []
split (c ∷ s) = if c == 47 then [] ∷ split s else put c (split s)

-- Without the empty pieces, but for one at the end.
unfoldable pub names : List Bytes → List Bytes
names [] = []
names (x ∷ []) = x ∷ []
names (x ∷ y ∷ xs) = if is_empty x then names (y ∷ xs) else x ∷ names (y ∷ xs)

abbrev pub below_root : List Bytes → List Bytes
below_root [] = []
below_root (x ∷ xs) = if is_empty x then xs else x ∷ xs

unfoldable pub parse : Bytes → FsPath
parse [] = []
parse (c ∷ s) = if c == 47 then slash ∷ below_root (names (split s)) else names (split (c ∷ s))

abbrev pub is_absolute : FsPath → Bool
is_absolute [] = false
is_absolute (x ∷ xs) = bytes_eq x slash

abbrev pub join_names : List Bytes → Bytes
join_names [] = []
join_names (x ∷ []) = x
join_names (x ∷ y ∷ xs) = x ++ slash ++ join_names (y ∷ xs)

-- generic_string, for a path without doubled separators.
unfoldable pub generic_string : FsPath → Bytes
generic_string [] = []
generic_string (x ∷ xs) = if bytes_eq x slash then slash ++ join_names xs else join_names (x ∷ xs)

-- The filename goes behind the last element: in place of an empty one, and an empty one only behind a
-- name.
unfoldable pub append_name : FsPath → Bytes → FsPath
append_name [] e = if is_empty e then [] else e ∷ []
append_name (x ∷ []) e =
    if is_empty x then e ∷ [] else if bytes_eq x slash && is_empty e then x ∷ [] else x ∷ e ∷ []
append_name (x ∷ y ∷ p) e = x ∷ append_name (y ∷ p) e

-- p /= e, for an element e.
unfoldable pub append : FsPath → Bytes → FsPath
append p e = if bytes_eq e slash then e ∷ [] else append_name p e

-- The loop that appends what is left of another path.
unfoldable pub append_all : FsPath → List Bytes → FsPath
append_all p [] = p
append_all p (e ∷ es) = append_all (append p e) es

-- Going down the names with those kept so far, last first, and whether a separator is due at the end.
abbrev pub is_up : Bytes → Bool
is_up e = bytes_eq e (ascii "..")

unfoldable pub climb : Bool → List Bytes → List Bytes × Bool
climb absolute [] = if absolute then ([], true) else (ascii ".." ∷ [], false)
climb absolute (x ∷ kept) = if is_up x then (ascii ".." ∷ x ∷ kept, false) else (kept, true)

unfoldable pub normal_step : Bool → List Bytes × Bool → Bytes → List Bytes × Bool
normal_step absolute s e =
    if is_empty e || bytes_eq e (ascii ".")
    then (s.0, true)
    else if is_up e
    then climb absolute s.0
    else (e ∷ s.0, false)

unfoldable pub normal_loop : Bool → List Bytes × Bool → List Bytes → List Bytes × Bool
normal_loop absolute s [] = s
normal_loop absolute s (e ∷ es) = normal_loop absolute (normal_step absolute s e) es

abbrev pub reverse_onto : List Bytes → List Bytes → List Bytes
reverse_onto [] ys = ys
reverse_onto (x ∷ xs) ys = reverse_onto xs (x ∷ ys)

unfoldable pub closing : List Bytes × Bool → List Bytes
closing ([], due) = []
closing (x ∷ kept, due) = if due && not (is_up x) then [] ∷ [] else []

abbrev pub or_dot : List Bytes → FsPath
or_dot [] = ascii "." ∷ []
or_dot (x ∷ xs) = x ∷ xs

unfoldable pub lexically_normal : FsPath → FsPath
lexically_normal [] = []
lexically_normal (x ∷ xs) =
    if bytes_eq x slash
    then (let s = normal_loop true ([], false) xs in slash ∷ reverse_onto s.0 (closing s))
    else (let s = normal_loop false ([], false) (x ∷ xs) in or_dot (reverse_onto s.0 (closing s)))
