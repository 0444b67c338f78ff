-- ===== src/System/Samples.antt =====
-- A small system for the tests.
use libdwarfs.Prelude.{ℕ, suc, refl, Bool, true, false, none, some, arith, ◌==◌, if◌then◌else◌}
use libdwarfs.System.{System, IsPosix}

-- The system gives out the numbers in turn.
abbrev pub counter : System
counter = record {
  Os = ℕ × (ℕ → Bool);
  dup = λ os.
      if os.1 os.0 then none else some (os.0, (suc os.0, λ j. if os.0 == j then true else os.1 j));
  close = λ os fd. (os.0, λ j. if fd == j then false else os.1 j);
  is_open = λ os fd. os.1 fd;
}

pub counter-IsPosix : IsPosix counter
counter-IsPosix = record {
  dup_fresh = λ os os' fd h. ground arith;
  dup_opens = λ os os' fd j h. ground arith;
  close_closes = λ os fd j. refl;
}
