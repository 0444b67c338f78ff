-- ===== src/Windows/MountPoint.antt =====
-- is_tebako_path and is_tebako_path_w of src/tebako-io-helpers.cpp on Windows: both spellings of the
-- mount point count, and letters are compared as they are.
use libdwarfs.Prelude.{
  ℤ, pos, negsuc, ◌≡◌, ◌⊎◌, inl, inr, Bool-cases, drop, refl, Bool, true, ◌||◌, ◌++◌, Bytes, ascii,
  starts_with, if◌then◌else◌, arith, starts_with_split, starts_with-append,
}

-- "A:\\__tebako_memfs__", of TEBAKO_MOUNT_POINT_LENGTH 19.
abbrev pub mount_point : Bytes
mount_point = ascii "A:\\__tebako_memfs__"

abbrev pub mount_point_s : Bytes
mount_point_s = ascii "A:/__tebako_memfs__"

unfoldable pub is_tebako_path : Bytes → Bool
is_tebako_path path = starts_with mount_point path || starts_with mount_point_s path

-- A text of WCHAR, by its code units.
unfoldable pub is_tebako_path_w : Bytes → ℤ
is_tebako_path_w path =
    if starts_with mount_point path || starts_with mount_point_s path then negsuc 0 else pos 0

-- A path counts exactly if it goes on behind one of the two spellings, and the test on wide characters
-- gives -1 for these and 0 for all others.
pub is_tebako_path_lem :
    (path rest : Bytes)
    → (is_tebako_path (mount_point ++ rest) ≡ true)
      × (is_tebako_path (mount_point_s ++ rest) ≡ true)
      × (is_tebako_path path ≡ true
          → (path ≡ mount_point ++ drop 19 path) ⊎ (path ≡ mount_point_s ++ drop 19 path))
      × (is_tebako_path_w path ≡ (if is_tebako_path path then negsuc 0 else pos 0))
unfolding is_tebako_path is_tebako_path_w
is_tebako_path_lem path rest = (
  rw (starts_with-append mount_point rest) refl,
  ground (arith, starts_with-append mount_point_s rest),
  λ h. elim (Bool-cases (starts_with mount_point path)) [
    | inl a ↦ inl (starts_with_split mount_point path a)
    | inr n ↦ inr (starts_with_split mount_point_s path (ground arith))
  ],
  refl,
)
