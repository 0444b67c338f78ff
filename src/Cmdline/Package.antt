-- ===== src/Cmdline/Package.antt =====
-- cmdline_args::process_package, src/tebako-cmdline.cpp: the file that `--tebako-run` names, and the
-- descriptor at its start.
use libdwarfs.Prelude.{ℕ, ◌<◌, ◌≡◌, refl, Option, none, some, Bytes, ◌++◌, take, length}
use libdwarfs.Result.{ok, err}
use libdwarfs.PackageDescriptor.{PackageDescriptor, serialize, deserialize}
use libdwarfs.PackageDescriptor.Buffer.{Exception}
use libdwarfs.PackageDescriptor.Roundtrip.{InRange, kept_descriptor, deserialize-serialize}
use libdwarfs.PackageDescriptor.Truncated.{deserialize-take}

-- An std::ifstream of a file: not open, not read to its end, with what the buffer holds then, or read.
pub data PackageFile : Type 0 where
  absent : PackageFile
  unread contents : Bytes → PackageFile

-- std::invalid_argument, or what the constructor of package_descriptor throws.
pub data PackageError : Type 0 where
  no_file unread_file : PackageError
  no_descriptor : Exception → PackageError

-- The members `package` and `descriptor`.
pub record Package : Type 0 where
  pub bytes : Bytes
  pub descriptor : Option PackageDescriptor

unfoldable pub process_package :
    (Bytes → PackageFile) → Package → Bytes → Package × Option PackageError
process_package open_file p app_image = elim (open_file app_image) [
  | absent ↦ (p, some no_file)
  | unread buffer ↦ (record p { bytes = buffer }, some unread_file)
  | contents buffer ↦ elim (deserialize buffer) [
    | err e ↦ (record p { bytes = buffer }, some (no_descriptor e))
    | ok d ↦ (record { bytes = buffer; descriptor = some d }, none)
  ]
]

-- A file that starts with the binary form of a descriptor with `uint16_t` versions is kept as the
-- package, and its descriptor is that one, each string cut to its size modulo 65536. A file that breaks off
-- within that form throws, and leaves the descriptor as it was.
pub process_package_lem :
    (open_file : Bytes → PackageFile) (p : Package) (app_image rest : Bytes) (d : PackageDescriptor)
    (cut : Bytes) (n : ℕ)
    → InRange d
    → open_file app_image ≡ contents (serialize d ++ rest)
    → n < length (serialize d)
    → open_file cut ≡ contents (take n (serialize d))
    → (process_package open_file p app_image
        ≡ (record { bytes = serialize d ++ rest; descriptor = some (kept_descriptor d) }, none))
      × ((e : Exception) × (process_package open_file p cut
            ≡ (record p { bytes = take n (serialize d) }, some (no_descriptor e))))
unfolding process_package
process_package_lem open_file p app_image rest d cut n h o short c =
    let (e, bad) = deserialize-take n d h short in
    (
      rw (process_package, o) (rw (deserialize-serialize d rest h) refl),
      (e, rw (process_package, c) (rw bad refl)),
    )
