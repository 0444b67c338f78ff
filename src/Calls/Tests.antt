-- ===== src/Calls/Tests.antt =====
-- The theorems on paths and the current directory.
use libdwarfs.Prelude.{ℕ, ◌≡◌, refl, none, some, [], ◌∷◌, Bytes, ascii, bytes_eq, starts_with}
use libdwarfs.Root.{Root, Found}
use libdwarfs.Paths.{
  generic_string, lexically_normal, normal_loop, normal_step, climb, closing, parse, split, names,
}
use libdwarfs.Cwd.{Cwd, to_tebako_path, tebako_path_assign, is_tebako_path}
use libdwarfs.Memfs.Samples.{holding, one_file}
use libdwarfs.Memfs.Find.{missing}
use libdwarfs.IoRoot.{io_root}

abbrev root : Root
root =
    io_root (λ path follow lnk. missing lnk) (λ ino path follow lnk. missing lnk)
      ((0, holding one_file) ∷ [])

abbrev new_dir : Bytes
new_dir = ascii "/__tebako_memfs__/x"

new_dir_path : to_tebako_path none new_dir ≡ some new_dir
unfolding to_tebako_path tebako_path_assign is_tebako_path starts_with generic_string
    lexically_normal normal_loop normal_step climb closing parse split names bytes_eq
new_dir_path = refl

abbrev sys_stat : Bytes → Found
sys_stat path = missing path

abbrev inside : Cwd
inside = some (ascii "/" ∷ ascii "__tebako_memfs__" ∷ [])

abbrev room : ℕ
room = 64
