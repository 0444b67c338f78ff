-- ===== src/FileIo/Tests.antt =====
-- Calls on a process that has nothing open.
use libdwarfs.Prelude.{
  ℤ, pos, negsuc, false, ascii, bytes_eq, starts_with, if◌then◌else◌, ◌==◌, arith, ◌≡◌, refl, true,
  none, [], ◌∷◌, Bytes,
}
use libdwarfs.Prelude.Maps.{find, int_eq}
use libdwarfs.Paths.{
  generic_string, lexically_normal, normal_loop, normal_step, climb, closing, parse, split, names,
}
use libdwarfs.Cwd.{to_tebako_path, tebako_path_assign, is_tebako_path}
use libdwarfs.Dl.Samples.{Machine, machine, machine-IsPosix, host}
use libdwarfs.FileIo.Loadable.{tebako_file_load_ok, tebako_file_load_ok_lem}
use libdwarfs.Root.{Root, Found}
use libdwarfs.Calls.{passed}
use libdwarfs.Memfs.Samples.{holding, one_file}
use libdwarfs.IoRoot.{io_root}
use libdwarfs.FileIo.{hand_over, tebako_read}
use libdwarfs.Fd.Read.{read}

abbrev hit : Bytes → Found
hit lnk = record { ret = pos 0; st = (one_file.getattr 1).1; lnk = lnk; errno = none }

abbrev root : Root
root = io_root (λ p follow lnk. hit lnk) (λ ino p follow lnk. hit lnk) ((0, holding one_file) ∷ [])

-- A descriptor of the system goes to the system.
standard_input : tebako_read (λ vfd. true) root [] (pos 0) 8 ≡ ([], passed (pos 0))
unfolding tebako_read read find hand_over
standard_input = refl

abbrev file : Bytes
file = ascii "/__tebako_memfs__/a"

-- Nothing is open, and no file holds anything.
abbrev nothing_open : Machine
nothing_open = (3, λ j. false, λ j. [], λ f. [])

tebako_file_load_ok_lem_example :
    let r = tebako_file_load_ok machine host root none [] nothing_open file in
    (r.2 ≡ negsuc 0) × ((vfd : ℤ) → find vfd r.0 ≡ find vfd []) × (machine.is_open r.1 3 ≡ false)
unfolding to_tebako_path tebako_path_assign is_tebako_path starts_with generic_string
    lexically_normal normal_loop normal_step climb closing parse split names bytes_eq find
tebako_file_load_ok_lem_example =
    tebako_file_load_ok_lem machine machine-IsPosix host root none [] nothing_open
      (4, λ j. if 3 == j then true else false, λ j. [], λ f. []) 3 file file refl refl refl
      (λ vfd fd h. ground arith) refl
