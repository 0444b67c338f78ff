-- ===== src/Mfs.antt =====
-- The image in memory as the library of dwarfs sees it: `tebako::mfs`, src/tebako-mfs.cpp. An address is
-- a number, and a `file_off_t` is signed; the library gives offsets and sizes of the image, below 2^63.
mod Tests
use libdwarfs.Prelude.{
  ℕ, ℤ, pos, ◌==ℤ◌, ◌+◌, ◌-◌, ◌*◌, ◌/◌, ◌%◌, ◌^◌, ◌<◌, ◌≤◌, ◌≡◌, refl, ap, ◌∙◌, Option, none, some,
  Bytes, ascii, arith, if◌then◌else◌,
}
use native.Mathlib.Nat.{mod-le, add-mod-mod}
use libdwarfs.Errno.{Errno, Out}

pub record Mfs : Type 0 where
  pub size : ℕ
  pub addr : ℕ
  pub page_size : ℕ

-- `sysconf(_SC_PAGESIZE)` is the system's.
abbrev pub new_mfs : ℕ → ℕ → ℕ → Mfs
new_mfs sc_pagesize addr size = record { size = size; addr = addr; page_size = sc_pagesize }

-- A range of memory: its address and its size.
abbrev pub Range : Type 0
Range = ℕ × ℕ

-- What ::munlock is called with.
unfoldable pub release_range : Mfs → ℕ → ℕ → Range
release_range m offset size =
    let misalign = offset % m.page_size in
    let offset' = offset - misalign in
    let size' = (size + misalign) % 2 ^ 64 in (m.addr + offset', size' - size' % m.page_size)

unfoldable pub release_until_range : Mfs → ℕ → Range
release_until_range m offset = (m.addr, offset - offset % m.page_size)

-- The calls of the system are `mlock` and `munlock`, with their result and errno. The error code holds
-- errno where they fail; `none` is no error.
abbrev pub error_code : Out ℤ → Option Errno
error_code out = if out.value ==ℤ pos 0 then none else out.errno

unfoldable pub lock : (Range → Out ℤ) → Mfs → ℕ → ℕ → Option Errno
lock mlock m offset size = error_code (mlock (m.addr + offset, size))

unfoldable pub release : (Range → Out ℤ) → Mfs → ℕ → ℕ → Option Errno
release munlock m offset size = error_code (munlock (release_range m offset size))

unfoldable pub release_until : (Range → Out ℤ) → Mfs → ℕ → Option Errno
release_until munlock m offset = error_code (munlock (release_until_range m offset))

abbrev pub path : Bytes
path = ascii "/__tebako_memfs__"

-- The start of the page that an offset lies in.
abbrev pub page_start : Mfs → ℕ → ℕ
page_start m offset = offset - offset % m.page_size

-- Pages are in the order of their offsets.
page_start_le : (m : Mfs) (offset size : ℕ) → page_start m offset ≤ page_start m (offset + size)
page_start_le m offset size =
    let high = mod-le (size + offset % m.page_size) m.page_size in
    let same : (size + offset % m.page_size) % m.page_size ≡ (offset + size) % m.page_size =
      add-mod-mod size offset m.page_size ∙ ap (λ n. n % m.page_size) (omega arith) in
    omega (arith, mod-le offset m.page_size, high, same)

release_range_lem :
    (m : Mfs) (offset size : ℕ)
    → offset + size < 2 ^ 63
    → release_range m offset size
      ≡ (m.addr + page_start m offset, page_start m (offset + size) - page_start m offset)
unfolding release_range
release_range_lem m offset size small =
    let low = mod-le offset m.page_size in
    let high = mod-le (size + offset % m.page_size) m.page_size in
    let same : (size + offset % m.page_size) % m.page_size ≡ (offset + size) % m.page_size =
      add-mod-mod size offset m.page_size ∙ ap (λ n. n % m.page_size) (omega arith) in
    let wrap : (size + offset % m.page_size) % 2 ^ 64 ≡ size + offset % m.page_size =
      omega (arith, low) in
    let len : (size + offset % m.page_size) - (offset + size) % m.page_size
        ≡ page_start m (offset + size) - page_start m offset =
      omega (arith, low, high, same) in
    rw (release_range, wrap, same, len) refl

-- Releasing one part of the image and then the part behind it releases page by page without a gap or an
-- overlap, as long as the offsets are below 2^63: the second range starts where the first ends, the ranges go
-- from the page of the first offset to the page of the last end, and stay within an image that holds
-- both parts. Releasing everything before the first offset ends where the first range starts.
pub release_tiles :
    (m : Mfs) (offset size size' : ℕ)
    → offset + size + size' < 2 ^ 63
    → offset + size + size' ≤ m.size
    → let first = release_range m offset size in
      let second = release_range m (offset + size) size' in
      let before = release_until_range m offset in
      (before.0 + before.1 ≡ first.0)
      × (first.0 + first.1 ≡ second.0)
      × (second.0 + second.1 ≡ m.addr + page_start m (offset + size + size'))
      × (second.0 + second.1 ≤ m.addr + m.size)
unfolding release_until_range
release_tiles m offset size size' small inside =
    let one = release_range_lem m offset size (omega arith) in
    let two = release_range_lem m (offset + size) size' small in
    let a = page_start_le m offset size in
    let b = page_start_le m (offset + size) size' in
    rw (one, two) (refl, omega (arith, a), omega (arith, b), omega (arith, b))
