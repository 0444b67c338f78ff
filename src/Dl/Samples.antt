-- ===== src/Dl/Samples.antt =====
-- A small system that keeps files, for the tests.
use libdwarfs.Prelude.{
  ℕ, pos, suc, ◌≡◌, refl, Bool, true, false, none, some, [], ◌++◌, Bytes, arith, bytes_eq,
  bytes_eq_refl, length, ◌==◌, if◌then◌else◌,
}
use libdwarfs.Errno.{dwarfs_io_error}
use libdwarfs.System.{System, IsPosix}
use libdwarfs.Memfs.Find.{unread}
use libdwarfs.Dl.Foreign.{Host}
use libdwarfs.Dl.Copy.{Disk}

-- The next descriptor, those open, the files of the descriptors, and what the files hold.
abbrev pub Machine : Type 0
Machine = ℕ × (ℕ → Bool) × (ℕ → Bytes) × (Bytes → Bytes)

abbrev pub machine : System
machine = record {
  Os = Machine;
  dup = λ os.
      if os.1 os.0
      then none
      else some (os.0, (suc os.0, λ j. if os.0 == j then true else os.1 j, os.2, os.3));
  close = λ os fd. (os.0, λ j. if fd == j then false else os.1 j, os.2, os.3);
  is_open = λ os fd. os.1 fd;
}

pub machine-IsPosix : IsPosix machine
machine-IsPosix = record {
  dup_fresh = λ os os' fd h. ground arith;
  dup_opens = λ os os' fd j h. ground arith;
  close_closes = λ os fd j. refl;
}

abbrev pub host : Host machine
host = record {
  open_read = λ os target. (dwarfs_io_error, os);
  fstat = λ os fd. (dwarfs_io_error, unread);
  read = λ os fd n. ((dwarfs_io_error, []), os);
  close = λ os fd. os;
  is_valid = λ os fd. false;
  create = λ os file mode. some (
    os.0,
    (
      suc os.0,
      λ j. if os.0 == j then true else os.1 j,
      λ j. if os.0 == j then file else os.2 j,
      os.3,
    ),
  );
  write = λ os n bytes. (
    pos (length bytes),
    (os.0, os.1, os.2, λ f. if bytes_eq (os.2 n) f then os.3 f ++ bytes else os.3 f),
  );
  unlink = λ os file. os;
  create_directories = λ os dir. some os;
}

pub host-creates :
    (os os' : Machine) (file : Bytes) (mode n : ℕ)
    → host.create os file mode ≡ some (n, os')
    → (os'.2 n ≡ file) × ((f : Bytes) → os'.3 f ≡ os.3 f)
host-creates os os' file mode n h = (ground arith, λ f. ground arith)

abbrev pub disk : Disk machine host
disk = record {
  held = λ os f. os.3 f;
  name = λ os n. os.2 n;
  creates = host-creates;
  writes = λ os n bytes. (refl, refl, rw (bytes_eq_refl (os.2 n)) refl);
  closes = λ os n f. refl;
}
