-- ===== src/PackageDescriptor.antt =====
-- include/tebako-package-descriptor.h and src/tebako-package-descriptor.cpp: the header of an
-- application package, its binary form, and the constructor from version strings (`Version`).
-- A `uint16_t` is a number below 65536; the host is little-endian, so `memcpy` of one writes its
-- low byte first. The reader's `buffer` and `offset` are the bytes that are left.
pub mod Version
pub mod Buffer
pub mod Roundtrip
pub mod Truncated
mod Tests
use libdwarfs.Prelude.{
  ℕ, ◌+◌, ◌*◌, ◌/◌, ◌%◌, ◌<◌, Bool, true, false, Option, none, some, List, [], ◌∷◌, ◌++◌, length,
  take, ltb, ◌==◌, ◌||◌, not, if◌then◌else◌, Bytes, ascii, starts_with, drop, bytes_eq,
}
use libdwarfs.Result.{Result, ok, err}
use Version.{parse_version}
use Buffer.{
  Reader, Exception, invalid_argument, out_of_range, ◌>>=◌, ◌>>◌, pure, throw, read_from_buffer,
  read_u16, read_string,
}

pub record PackageDescriptor : Type 0 where
  pub ruby_version_major : ℕ
  pub ruby_version_minor : ℕ
  pub ruby_version_patch : ℕ
  pub tebako_version_major : ℕ
  pub tebako_version_minor : ℕ
  pub tebako_version_patch : ℕ
  pub mount_point : Bytes
  pub entry_point : Bytes
  pub cwd : Option Bytes

abbrev pub signature : Bytes
signature = ascii "TAMATEBAKO"

-- if (offset + signature_length > buffer.size() || memcmp(...) != 0) throw invalid_argument
unfoldable pub check_signature : Reader (Unit {0})
check_signature b =
    if ltb (length b) (length signature) || not (starts_with signature b)
    then err invalid_argument
    else ok (tt, drop (length signature) b)

-- The presence flag, and the working directory if the flag is not zero.
unfoldable pub read_cwd : Reader (Option Bytes)
read_cwd = do
  flag ← read_from_buffer 1
  if bytes_eq flag (0 ∷ []) then pure none else (do value ← read_string; pure (some value))

-- The constructor from a buffer, with what it leaves unread.
unfoldable pub read_descriptor : Reader PackageDescriptor
read_descriptor = do
  check_signature
  r_major ← read_u16
  r_minor ← read_u16
  r_patch ← read_u16
  t_major ← read_u16
  t_minor ← read_u16
  t_patch ← read_u16
  mount ← read_string
  entry ← read_string
  dir ← read_cwd
  pure (record {
    ruby_version_major = r_major;
    ruby_version_minor = r_minor;
    ruby_version_patch = r_patch;
    tebako_version_major = t_major;
    tebako_version_minor = t_minor;
    tebako_version_patch = t_patch;
    mount_point = mount;
    entry_point = entry;
    cwd = dir;
  })

-- What follows the last field is ignored.
unfoldable pub deserialize : Bytes → Result Exception PackageDescriptor
deserialize buffer = elim (read_descriptor buffer) [ ok (d, rest) ↦ ok d | err e ↦ err e ]

-- append_to_buffer(&field, sizeof(field)) of a uint16_t
abbrev pub u16_bytes : ℕ → Bytes
u16_bytes n = n % 256 ∷ n / 256 % 256 ∷ []

-- static_cast<uint16_t>(s.size()), and as many bytes of the contents.
unfoldable pub string_bytes : Bytes → Bytes
string_bytes s = let size = length s % 65536 in u16_bytes size ++ take size s

unfoldable pub cwd_bytes : Option Bytes → Bytes
cwd_bytes none = 0 ∷ []
cwd_bytes (some value) = 1 ∷ string_bytes value

unfoldable pub serialize : PackageDescriptor → Bytes
serialize d =
    signature
    ++ (u16_bytes d.ruby_version_major
        ++ (u16_bytes d.ruby_version_minor
            ++ (u16_bytes d.ruby_version_patch
                ++ (u16_bytes d.tebako_version_major
                    ++ (u16_bytes d.tebako_version_minor
                        ++ (u16_bytes d.tebako_version_patch
                            ++ (string_bytes d.mount_point
                                ++ (string_bytes d.entry_point ++ cwd_bytes d.cwd))))))))

-- The constructor from strings. The two versions are parsed in turn, and the first that fails throws.
unfoldable pub from_strings :
    Bytes → Bytes → Bytes → Bytes → Option Bytes → Result Exception PackageDescriptor
from_strings ruby_version tebako_version mount entry dir = elim (parse_version ruby_version) [
  | err e ↦ err e
  | ok (r_major, r_minor, r_patch) ↦ elim (parse_version tebako_version) [
    | err e ↦ err e
    | ok (t_major, t_minor, t_patch) ↦ ok (record {
      ruby_version_major = r_major;
      ruby_version_minor = r_minor;
      ruby_version_patch = r_patch;
      tebako_version_major = t_major;
      tebako_version_minor = t_minor;
      tebako_version_patch = t_patch;
      mount_point = mount;
      entry_point = entry;
      cwd = dir;
    })
  ]
]
