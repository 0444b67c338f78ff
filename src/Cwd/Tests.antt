-- ===== src/Cwd/Tests.antt =====
-- Runs of the current directory, and the theorem for `/__tebako_memfs__/usr`.
use libdwarfs.Prelude.{◌≡◌, refl, some, none, ascii, bytes_eq, starts_with}
use libdwarfs.Paths.{
  parse, split, names, generic_string, lexically_normal, normal_loop, normal_step, climb, closing,
}
use libdwarfs.Cwd.{to_tebako_path, tebako_path_assign, is_tebako_path}

-- A path that leaves the mount point by `..` is taken as one of memfs.
outside_taken : to_tebako_path none (ascii "/__tebako_memfs__/../etc") ≡ some (ascii "/etc")
unfolding to_tebako_path tebako_path_assign is_tebako_path starts_with generic_string
    lexically_normal normal_loop normal_step climb closing parse split names bytes_eq
outside_taken = refl
