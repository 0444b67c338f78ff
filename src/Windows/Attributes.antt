-- ===== src/Windows/Attributes.antt =====
-- The two operators << of include/tebako-io-rb-w32.h, between `struct stat` of the system and `stati128`
-- of Ruby. The types of the fields of `stati128` stand in the header (`long` has 32 bits, and _dev_t is
-- an unsigned one); those of `struct stat` are the system's.
use libdwarfs.Prelude.{
  ℕ, ℤ, pos, negsuc, suc, ◌-◌, ◌%◌, ◌^◌, ◌<◌, ◌≡◌, ◌∙◌, ap, ltb, if◌then◌else◌, arith,
}

-- A value stored in an unsigned field of `w` bits, and in a signed one of `w + 1` bits.
unfoldable pub to_unsigned : ℕ → ℤ → ℕ
to_unsigned w (pos n) = n % 2 ^ w
to_unsigned w (negsuc n) = 2 ^ w - 1 - n % 2 ^ w

unfoldable pub to_signed : ℕ → ℤ → ℤ
to_signed w z =
    let u = to_unsigned (suc w) z in if ltb u (2 ^ w) then pos u else negsuc (2 ^ suc w - 1 - u)

-- `struct stat`, as far as the operators read or write it.
pub record SystemStat : Type 0 where
  pub dev : ℤ
  pub ino : ℤ
  pub mode : ℤ
  pub nlink : ℤ
  pub uid : ℤ
  pub gid : ℤ
  pub rdev : ℤ
  pub size : ℤ
  pub atime : ℤ
  pub mtime : ℤ
  pub ctime : ℤ

pub record Stati128 : Type 0 where
  pub st_dev : ℕ
  pub st_ino : ℕ
  pub st_inohigh : ℤ
  pub st_mode : ℕ
  pub st_nlink : ℤ
  pub st_uid : ℤ
  pub st_gid : ℤ
  pub st_rdev : ℕ
  pub st_size : ℤ
  pub st_atime : ℤ
  pub st_atimensec : ℤ
  pub st_mtime : ℤ
  pub st_mtimensec : ℤ
  pub st_ctime : ℤ
  pub st_ctimensec : ℤ

-- Every field is written, so that what stood there does not matter.
unfoldable pub to_stati128 : SystemStat → Stati128
to_stati128 i = record {
  st_dev = to_unsigned 32 i.dev;
  st_ino = to_unsigned 64 i.ino;
  st_inohigh = pos 0;
  st_mode = to_unsigned 16 i.mode;
  st_nlink = to_signed 15 i.nlink;
  st_uid = to_signed 15 i.uid;
  st_gid = to_signed 15 i.gid;
  st_rdev = to_unsigned 32 i.rdev;
  st_size = to_signed 63 i.size;
  st_atime = to_signed 63 i.atime;
  st_atimensec = pos 0;
  st_mtime = to_signed 63 i.mtime;
  st_mtimensec = pos 0;
  st_ctime = to_signed 63 i.ctime;
  st_ctimensec = pos 0;
}

-- What the system's fields make of a value.
pub record Stores : Type 0 where
  pub dev : ℤ → ℤ
  pub ino : ℤ → ℤ
  pub mode : ℤ → ℤ
  pub nlink : ℤ → ℤ
  pub uid : ℤ → ℤ
  pub gid : ℤ → ℤ
  pub rdev : ℤ → ℤ
  pub size : ℤ → ℤ
  pub atime : ℤ → ℤ
  pub mtime : ℤ → ℤ
  pub ctime : ℤ → ℤ

unfoldable pub from_stati128 : Stores → Stati128 → SystemStat
from_stati128 sys i = record {
  dev = sys.dev (pos i.st_dev);
  ino = sys.ino (pos i.st_ino);
  mode = sys.mode (pos i.st_mode);
  nlink = sys.nlink i.st_nlink;
  uid = sys.uid i.st_uid;
  gid = sys.gid i.st_gid;
  rdev = sys.rdev (pos i.st_rdev);
  size = sys.size i.st_size;
  atime = sys.atime i.st_atime;
  mtime = sys.mtime i.st_mtime;
  ctime = sys.ctime i.st_ctime;
}

-- The value of an unsigned field of `w` bits, and of a signed one of `w + 1` bits.
abbrev pub IsUnsigned : ℕ → ℤ → Type 0
IsUnsigned w (pos n) = n < 2 ^ w
IsUnsigned w (negsuc n) = ⊥

abbrev pub IsSigned : ℕ → ℤ → Type 0
IsSigned w (pos n) = n < 2 ^ w
IsSigned w (negsuc n) = n < 2 ^ w

to_unsigned_16 : (z : ℤ) → IsUnsigned 16 z → pos (to_unsigned 16 z) ≡ z
unfolding to_unsigned
to_unsigned_16 (pos n) h = ap pos (omega arith)
to_unsigned_16 (negsuc n) h = absurd h

to_unsigned_32 : (z : ℤ) → IsUnsigned 32 z → pos (to_unsigned 32 z) ≡ z
unfolding to_unsigned
to_unsigned_32 (pos n) h = ap pos (omega arith)
to_unsigned_32 (negsuc n) h = absurd h

to_unsigned_64 : (z : ℤ) → IsUnsigned 64 z → pos (to_unsigned 64 z) ≡ z
unfolding to_unsigned
to_unsigned_64 (pos n) h = ap pos (omega arith)
to_unsigned_64 (negsuc n) h = absurd h

to_signed_15 : (z : ℤ) → IsSigned 15 z → to_signed 15 z ≡ z
unfolding to_signed to_unsigned
to_signed_15 (pos n) h = ground arith
to_signed_15 (negsuc n) h = ground arith

to_signed_63 : (z : ℤ) → IsSigned 63 z → to_signed 63 z ≡ z
unfolding to_signed to_unsigned
to_signed_63 (pos n) h = ground arith
to_signed_63 (negsuc n) h = ground arith

-- The values are those of the fields of `stati128` that they go to, and the system's fields keep them.
pub record Fits (sys : Stores) (i : SystemStat) : Type 0 where
  pub dev : IsUnsigned 32 i.dev × (sys.dev i.dev ≡ i.dev)
  pub ino : IsUnsigned 64 i.ino × (sys.ino i.ino ≡ i.ino)
  pub mode : IsUnsigned 16 i.mode × (sys.mode i.mode ≡ i.mode)
  pub nlink : IsSigned 15 i.nlink × (sys.nlink i.nlink ≡ i.nlink)
  pub uid : IsSigned 15 i.uid × (sys.uid i.uid ≡ i.uid)
  pub gid : IsSigned 15 i.gid × (sys.gid i.gid ≡ i.gid)
  pub rdev : IsUnsigned 32 i.rdev × (sys.rdev i.rdev ≡ i.rdev)
  pub size : IsSigned 63 i.size × (sys.size i.size ≡ i.size)
  pub atime : IsSigned 63 i.atime × (sys.atime i.atime ≡ i.atime)
  pub mtime : IsSigned 63 i.mtime × (sys.mtime i.mtime ≡ i.mtime)
  pub ctime : IsSigned 63 i.ctime × (sys.ctime i.ctime ≡ i.ctime)

-- Attributes whose values fit both forms come back from `stati128` as they were.
pub from-to_stati128 :
    (sys : Stores) (i : SystemStat) → Fits sys i → from_stati128 sys (to_stati128 i) ≡ i
unfolding from_stati128 to_stati128
from-to_stati128 sys i f = cc (
  ap sys.dev (to_unsigned_32 i.dev f.dev.0) ∙ f.dev.1,
  ap sys.ino (to_unsigned_64 i.ino f.ino.0) ∙ f.ino.1,
  ap sys.mode (to_unsigned_16 i.mode f.mode.0) ∙ f.mode.1,
  ap sys.nlink (to_signed_15 i.nlink f.nlink.0) ∙ f.nlink.1,
  ap sys.uid (to_signed_15 i.uid f.uid.0) ∙ f.uid.1,
  ap sys.gid (to_signed_15 i.gid f.gid.0) ∙ f.gid.1,
  ap sys.rdev (to_unsigned_32 i.rdev f.rdev.0) ∙ f.rdev.1,
  ap sys.size (to_signed_63 i.size f.size.0) ∙ f.size.1,
  ap sys.atime (to_signed_63 i.atime f.atime.0) ∙ f.atime.1,
  ap sys.mtime (to_signed_63 i.mtime f.mtime.0) ∙ f.mtime.1,
  ap sys.ctime (to_signed_63 i.ctime f.ctime.0) ∙ f.ctime.1,
)
