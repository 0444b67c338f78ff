-- ===== src/PackageDescriptor/Tests.antt =====
-- Runs of the package descriptor's code, and the theorems about it at concrete inputs.
use libdwarfs.Prelude.{◌≡◌, refl, some, [], ◌∷◌, ◌++◌, ascii, arith, take}
use libdwarfs.Result.{ok, err}
use libdwarfs.PackageDescriptor.Buffer.{Exception}
use libdwarfs.PackageDescriptor.{
  PackageDescriptor, serialize, deserialize, string_bytes, cwd_bytes, from_strings,
}
use libdwarfs.PackageDescriptor.Version.{
  parse_version, parse_version_lem, extract_version, extract_u16, extract_char, skip_ws, signed,
  unsigned, digits,
}
use libdwarfs.PackageDescriptor.Roundtrip.{InRange, kept_descriptor, deserialize-serialize}
use libdwarfs.PackageDescriptor.Truncated.{deserialize-take}

abbrev sample : PackageDescriptor
sample = record {
  ruby_version_major = 3;
  ruby_version_minor = 3;
  ruby_version_patch = 260;
  tebako_version_major = 0;
  tebako_version_minor = 10;
  tebako_version_patch = 1;
  mount_point = ascii "/m";
  entry_point = ascii "/local/main.rb";
  cwd = some (ascii "/d");
}

sample-InRange : InRange sample
sample-InRange = omega arith

from_strings-sample :
    from_strings
      (ascii "3.3.260")
      (ascii "0.10.1")
      (ascii "/m")
      (ascii "/local/main.rb")
      (some (ascii "/d"))
    ≡ ok sample
unfolding from_strings parse_version extract_version extract_u16 extract_char skip_ws signed
    unsigned digits
from_strings-sample = refl

-- 260 is written as 4, 1.
little_endian : take 16 (serialize sample) ≡ ascii "TAMATEBAKO" ++ 3 ∷ 0 ∷ 3 ∷ 0 ∷ 4 ∷ 1 ∷ []
unfolding serialize
little_endian = refl

deserialize-serialize_example :
    deserialize (serialize sample ++ 7 ∷ []) ≡ ok (kept_descriptor sample)
deserialize-serialize_example = deserialize-serialize sample (7 ∷ []) sample-InRange

deserialize-take_example : (e : Exception) × (deserialize (take 9 (serialize sample)) ≡ err e)
unfolding serialize string_bytes cwd_bytes
deserialize-take_example = deserialize-take 9 sample sample-InRange (omega arith)

parse_version_lem_example : parse_version (ascii "3-2.6") ≡ ok (3, 2, 6)
parse_version_lem_example =
    parse_version_lem (ascii "3") (ascii "2") (ascii "6") b'-' ((refl, tt), omega arith)
      ((refl, tt), omega arith) ((refl, tt), omega arith) refl refl
