-- ===== src/Cwd.antt =====
-- The current directory within memfs (src/tebako-io-helpers.cpp): `tebako_path_s` behind its lock, and
-- what makes a path of the program a path of memfs. Paths are those of POSIX; the log is left out.
mod Expand
pub mod Logged
mod Tests
use libdwarfs.Prelude.{
  ℕ, Bool, true, false, not, ◌&&◌, Option, none, some, [], ◌∷◌, ◌++◌, Bytes, ascii, starts_with,
  take, if◌then◌else◌,
}
use libdwarfs.Memfs.Inode.{path_length}
use libdwarfs.Paths.{
  FsPath, slash, parse, generic_string, append_all, is_absolute, lexically_normal,
}

-- `none` is a null pointer, and an empty path a directory outside of memfs.
abbrev pub Cwd : Type 0
Cwd = Option FsPath

abbrev pub mount_point : Bytes
mount_point = ascii "/__tebako_memfs__"

-- A copy of at most TEBAKO_PATH_LENGTH bytes.
unfoldable pub tebako_path_assign : FsPath → Bytes
tebako_path_assign p = take path_length (generic_string p)

abbrev pub is_in : FsPath → Bool
is_in [] = false
is_in (x ∷ p) = true

unfoldable pub expand_path : FsPath → Bytes → Bytes
expand_path p path = tebako_path_assign (lexically_normal (append_all p (parse path)))

unfoldable pub tebako_init_cwd : Cwd → Cwd
tebako_init_cwd cwd = some []

unfoldable pub tebako_drop_cwd : Cwd → Cwd
tebako_drop_cwd cwd = none

unfoldable pub tebako_get_cwd : Cwd → Bytes
tebako_get_cwd none = []
tebako_get_cwd (some p) = tebako_path_assign p

-- `none` for the path is a null pointer. The result is true: nothing throws.
unfoldable pub tebako_set_cwd : Cwd → Option Bytes → Cwd × Bool
tebako_set_cwd none path = (none, true)
tebako_set_cwd (some p) none = (some [], true)
tebako_set_cwd (some p) (some path) = (some (lexically_normal (parse (path ++ ascii "/"))), true)

unfoldable pub is_tebako_path : Bytes → Bool
is_tebako_path path = starts_with mount_point path

unfoldable pub is_tebako_cwd : Cwd → Bool
is_tebako_cwd none = false
is_tebako_cwd (some p) = is_in p

-- The text that is tested against the mount point is the one before normalization.
unfoldable pub to_tebako_path : Cwd → Bytes → Option Bytes
to_tebako_path cwd path =
    let p = lexically_normal (parse path) in
    let outside = if is_tebako_path path then some (tebako_path_assign p) else none in
    elim cwd [
      | none ↦ outside
      | some dir ↦
          if is_in dir && not (is_absolute p)
          then some (expand_path dir (generic_string p))
          else outside
    ]
