-- ===== src/Errno.antt =====
-- `errno` and the return codes of include/tebako-io-inner.h. A function that may write errno through
-- TEBAKO_SET_LAST_ERROR (include/tebako-common.h) gives the value that it wrote last, or `none` where
-- it wrote nothing. The numbers of errno.h are those of Linux.
use libdwarfs.Prelude.{ℤ, pos, negsuc, Option, none, some}

abbrev pub Errno : Type 0
Errno = ℤ

abbrev pub enoent : Errno
enoent = pos 2

abbrev pub eio : Errno
eio = pos 5

abbrev pub ebadf : Errno
ebadf = pos 9

abbrev pub enomem : Errno
enomem = pos 12

abbrev pub eacces : Errno
eacces = pos 13

abbrev pub efault : Errno
efault = pos 14

abbrev pub enotdir : Errno
enotdir = pos 20

abbrev pub einval : Errno
einval = pos 22

abbrev pub emfile : Errno
emfile = pos 24

abbrev pub erofs : Errno
erofs = pos 30

abbrev pub erange : Errno
erange = pos 34

abbrev pub eloop : Errno
eloop = pos 40

abbrev pub eoverflow : Errno
eoverflow = pos 75

abbrev pub enotsup : Errno
enotsup = pos 95

abbrev pub dwarfs_io_continue : ℤ
dwarfs_io_continue = pos 0

abbrev pub dwarfs_io_error : ℤ
dwarfs_io_error = negsuc 0

abbrev pub dwarfs_invalid_fd : ℤ
dwarfs_invalid_fd = negsuc 1

abbrev pub dwarfs_s_link_outside : ℤ
dwarfs_s_link_outside = negsuc 2

abbrev pub dwarfs_s_link_absolute : ℤ
dwarfs_s_link_absolute = negsuc 3

abbrev pub dwarfs_s_link_relative : ℤ
dwarfs_s_link_relative = negsuc 4

-- What a call gives: its value and the errno that it left.
pub record Out {ℓ} (A : Type ℓ) : Type ℓ where
  pub value : A
  pub errno : Option Errno

abbrev pub returns {ℓ} : {A : Type ℓ} → A → Out A
returns a = record { value = a; errno = none }

abbrev pub fails {ℓ} : {A : Type ℓ} → A → Errno → Out A
fails a e = record { value = a; errno = some e }

-- The errno that two calls in a row leave.
abbrev pub later : Option Errno → Option Errno → Option Errno
later first none = first
later first (some e) = some e
