-- ===== src/Cmdline.antt =====
-- src/tebako-cmdline.cpp and include/tebako-cmdline.h: the options of the command line, and the
-- arguments that are built for the program. Arguments are C strings. The mount rules are processed in
-- `Mounting`, and the package in `Package`.
pub mod Options
pub mod Memory
pub mod Mounting
pub mod Package
mod Tests
use libdwarfs.Prelude.{
  ℕ, ◌+◌, Bool, true, false, not, ◌==◌, Option, none, some, List, [], ◌∷◌, ◌++◌, Bytes, ascii,
  bytes_eq, starts_with, drop, length, if◌then◌else◌,
}
use libdwarfs.Result.{Result, ok, err}

-- std::invalid_argument.
pub data Invalid : Type 0 where
  mount_rule run_image run_twice : Invalid

pub record Settings : Type 0 where
  pub mountpoints : List Bytes
  pub other_args : List Bytes
  pub extract_folder : Bytes
  pub app_image : Bytes
  pub extract : Bool
  pub run : Bool

abbrev pub run_key : Bytes
run_key = ascii "--tebako-run"

abbrev pub mount_key : Bytes
mount_key = ascii "--tebako-mount"

abbrev pub extract_key : Bytes
extract_key = ascii "--tebako-extract"

abbrev pub extract_dest : Bytes
extract_dest = ascii "source_filesystem"

-- The tests of the loop in their order: a key with a value, or alone. The last one compares a prefix.
pub data Kind : Type 0 where
  run_value mount_value extract_value : Bytes → Kind
  run_alone mount_alone extract_alone other : Kind

unfoldable pub kind : Bytes → Kind
kind arg =
    if starts_with (run_key ++ ascii "=") arg
    then run_value (drop 13 arg)
    else if starts_with (mount_key ++ ascii "=") arg
    then mount_value (drop 15 arg)
    else if starts_with (extract_key ++ ascii "=") arg
    then extract_value (drop 17 arg)
    else if bytes_eq arg run_key
    then run_alone
    else if bytes_eq arg mount_key
    then mount_alone
    else if starts_with extract_key arg
    then extract_alone
    else other

-- next_arg[0] == '-'
abbrev pub is_flag : Bytes → Bool
is_flag [] = false
is_flag (c ∷ s) = c == 45

abbrev pub set_run : Settings → Bytes → Settings
set_run o image = record o { run = true; app_image = image }

abbrev pub add_mount : Settings → Bytes → Settings
add_mount o rule = record o { mountpoints = o.mountpoints ++ rule ∷ [] }

abbrev pub add_other : Settings → Bytes → Settings
add_other o arg = record o { other_args = o.other_args ++ arg ∷ [] }

abbrev pub set_extract : Settings → Bytes → Settings
set_extract o folder = record o { extract = true; extract_folder = folder }

abbrev pub or_dest : Bytes → Bytes
or_dest [] = extract_dest
or_dest (c ∷ s) = c ∷ s

-- The loop from one argument on. `--tebako-extract` ends it.
unfoldable pub parse_arguments : Settings → List Bytes → Result Invalid Settings
parse_arguments o [] = ok o
parse_arguments o (arg ∷ []) = elim (kind arg) [
  | run_value v ↦
      if bytes_eq v [] then err run_image else if o.run then err run_twice else ok (set_run o v)
  | mount_value v ↦ if bytes_eq v [] then err mount_rule else ok (add_mount o v)
  | extract_value v ↦ ok (set_extract o (or_dest v))
  | run_alone ↦ if o.run then err run_twice else err run_image
  | mount_alone ↦ err mount_rule
  | extract_alone ↦ ok (set_extract o extract_dest)
  | other ↦ ok (add_other o arg)
]
parse_arguments o (arg ∷ next ∷ rest) = elim (kind arg) [
  | run_value v ↦
      if bytes_eq v []
      then err run_image
      else if o.run
      then err run_twice
      else parse_arguments (set_run o v) (next ∷ rest)
  | mount_value v ↦
      if bytes_eq v [] then err mount_rule else parse_arguments (add_mount o v) (next ∷ rest)
  | extract_value v ↦ ok (set_extract o (or_dest v))
  | run_alone ↦
      if o.run
      then err run_twice
      else if is_flag next
      then err run_image
      else parse_arguments (set_run o next) rest
  | mount_alone ↦ if is_flag next then err mount_rule else parse_arguments (add_mount o next) rest
  | extract_alone ↦ ok (set_extract o (if is_flag next then extract_dest else next))
  | other ↦ parse_arguments (add_other o arg) (next ∷ rest)
]

-- new_argv_memory as far as it is written, and the offsets of new_argv, the last one first.
pub record Argv : Type 0 where
  pub memory : Bytes
  pub offsets : List ℕ

-- A copy of the string and its zero byte at the end of what is written.
unfoldable pub put : Bytes → Argv → Argv
put s a = record { memory = a.memory ++ s ++ 0 ∷ []; offsets = length a.memory ∷ a.offsets }

unfoldable pub put_all : List Bytes → Argv → Argv
put_all [] a = a
put_all (s ∷ ss) a = put_all ss (put s a)

abbrev pub blank : Argv
blank = record { memory = []; offsets = [] }

-- The sum of length + 1.
unfoldable pub size_of : List Bytes → ℕ
size_of [] = 0
size_of (s ∷ ss) = length s + 1 + size_of ss

-- For the arguments `first ∷ rest`: the size that is allocated, and what is written. The mount point
-- and the entry point make one string.
unfoldable pub build_arguments_for_run : Bytes → List Bytes → Bytes → Bytes → ℕ × Argv
build_arguments_for_run first rest fs_mount_point fs_entry_point = (
  length fs_mount_point + length fs_entry_point + 1 + size_of (first ∷ rest),
  put_all rest (put (fs_mount_point ++ fs_entry_point) (put first blank)),
)

unfoldable pub build_arguments_for_extract : Bytes → Bytes → Bytes → ℕ × Argv
build_arguments_for_extract program fs_mount_point extract_folder =
    let cmd =
      ascii "require 'fileutils'; FileUtils.copy_entry '"
      ++ fs_mount_point
      ++ ascii "', '"
      ++ extract_folder
      ++ ascii "'" in
    (3 + length cmd + 1 + length program + 1, put cmd (put (ascii "-e") (put program blank)))
