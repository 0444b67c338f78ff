-- ===== src/System.antt =====
-- The descriptors of the operating system, which src/tebako-fd.cpp takes and gives back: ::dup(0) and
-- ::close. They are a parameter with a state of its own.
pub mod Samples
use libdwarfs.Prelude.{ℕ, ◌≡◌, Bool, true, false, Option, some, ◌==◌, if◌then◌else◌}

-- `dup` is `none` where no descriptor is left.
pub record System : Type 1 where
  pub Os : Type 0
  pub dup : Os → Option (ℕ × Os)
  pub close : Os → ℕ → Os
  pub is_open : Os → ℕ → Bool

-- What POSIX documents of the two calls.
pub record IsPosix (sys : System) : Type 0 where
  pub dup_fresh :
      (os os' : sys.Os) (fd : ℕ) → sys.dup os ≡ some (fd, os') → sys.is_open os fd ≡ false
  pub dup_opens :
      (os os' : sys.Os) (fd j : ℕ)
      → sys.dup os ≡ some (fd, os')
      → sys.is_open os' j ≡ (if fd == j then true else sys.is_open os j)
  pub close_closes :
      (os : sys.Os) (fd j : ℕ)
      → sys.is_open (sys.close os fd) j ≡ (if fd == j then false else sys.is_open os j)
