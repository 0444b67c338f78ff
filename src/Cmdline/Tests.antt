-- ===== src/Cmdline/Tests.antt =====
-- Command lines, and the theorems on one of them.
use libdwarfs.Prelude.{
  ◌≡◌, refl, false, none, Bytes, take, if◌then◌else◌, List, [], ◌∷◌, ◌++◌, ascii, bytes_eq,
  starts_with, length, arith, map,
}
use libdwarfs.Result.{ok}
use libdwarfs.PackageDescriptor.{PackageDescriptor, serialize}
use libdwarfs.Cmdline.Package.{PackageFile, contents, Package}
use libdwarfs.Cmdline.{Settings, kind, extract_alone, parse_arguments, build_arguments_for_run}
use libdwarfs.Cmdline.Options.{
  Item, plain, mount_joined, mount_split, written, extended, parse_arguments-written,
}
use libdwarfs.Cmdline.Memory.{string_at, build_arguments_for_run_lem}

-- The last test of the loop takes a prefix for the option.
extract_prefix : kind (ascii "--tebako-extractor") ≡ extract_alone
unfolding kind starts_with bytes_eq
extract_prefix = refl

abbrev fresh : Settings
fresh = record {
  mountpoints = [];
  other_args = [];
  extract_folder = [];
  app_image = [];
  extract = false;
  run = false;
}

abbrev items : List Item
items =
    plain (ascii "ruby")
    ∷ mount_split (ascii "a:b")
    ∷ mount_joined (ascii "c:d")
    ∷ plain (ascii "-v")
    ∷ []

parse_arguments-written_example :
    parse_arguments fresh (written items)
    ≡ ok (extended fresh (ascii "a:b" ∷ ascii "c:d" ∷ []) (ascii "ruby" ∷ ascii "-v" ∷ []))
unfolding kind starts_with bytes_eq
parse_arguments-written_example =
    parse_arguments-written items fresh (refl, (refl, (refl, (refl, tt))))

build_arguments_for_run_lem_example :
    let r = build_arguments_for_run (ascii "r") (ascii "x" ∷ []) (ascii "m") (ascii "e") in
    (length r.1.memory ≡ r.0)
    × (map (string_at (r.1.memory ++ [])) r.1.offsets ≡ ascii "x" ∷ ascii "me" ∷ ascii "r" ∷ [])
build_arguments_for_run_lem_example =
    build_arguments_for_run_lem (ascii "r") (ascii "x" ∷ []) (ascii "m") (ascii "e")
      (omega arith, tt) ((omega arith, tt), tt) (omega arith, (omega arith, tt))

abbrev bundle : PackageDescriptor
bundle = record {
  ruby_version_major = 3;
  ruby_version_minor = 3;
  ruby_version_patch = 6;
  tebako_version_major = 0;
  tebako_version_minor = 10;
  tebako_version_patch = 1;
  mount_point = ascii "/m";
  entry_point = ascii "/e";
  cwd = none;
}

abbrev none_yet : Package
none_yet = record { bytes = []; descriptor = none }

-- The file "p" holds the whole package, and every other one its first 9 bytes.
abbrev files : Bytes → PackageFile
files p =
    contents
      (if bytes_eq p (ascii "p") then serialize bundle ++ 7 ∷ [] else take 9 (serialize bundle))
