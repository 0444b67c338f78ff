-- ===== src/Search/Across/Tests.antt =====
-- A rule that leads out of memfs, and the theorems at this input.
use libdwarfs.Prelude.{
  ℤ, ◌==◌, ◌≡◌, refl, true, false, none, some, [], ◌∷◌, Bytes, ascii, starts_with, arith, bytes_eq,
  Bool-cases, inl, inr, subst, ℕ,
}
use libdwarfs.Prelude.Maps.{find}
use libdwarfs.Errno.{Out, fails, enoent, dwarfs_io_error, dwarfs_s_link_outside}
use libdwarfs.Dwarfs.{Stat}
use libdwarfs.Paths.{
  parse, split, names, generic_string, lexically_normal, normal_loop, normal_step, climb, closing,
  append_all, append, append_name, is_absolute,
}
use libdwarfs.Cwd.{to_tebako_path, tebako_path_assign, is_tebako_path}
use libdwarfs.System.Samples.{counter}
use libdwarfs.Fd.Open.{OpenFlags}
use libdwarfs.Memfs.State.{Memfs}
use libdwarfs.Memfs.Find.{unread}
use libdwarfs.Memfs.Samples.{one_file, holding}
use libdwarfs.Memfs.Walk.{IsLinkFree}
use libdwarfs.MemfsTable as MemfsTable
use libdwarfs.MemfsTable.{MemfsTable}
use libdwarfs.MountTable as MountTable
use libdwarfs.MountTable.{MountTable, path, point, point_eq}
use libdwarfs.Calls.{passed, tebako_stat}
use libdwarfs.FileIo.{tebako_open}
use libdwarfs.Search.{search_root, dwarfs_stat}
use libdwarfs.Search.Across.{IsPlain, dwarfs_stat_across, open_leaves}

abbrev root : Memfs
root = holding one_file

abbrev systems : MemfsTable
systems = (0, root) ∷ []

abbrev rules : MountTable
rules = ((0, ascii "m"), path (ascii "/opt")) ∷ []

abbrev outside : Bytes → Out (ℤ × Stat)
outside p = fails (dwarfs_io_error, unread) enoent

abbrev to_write : OpenFlags
to_write = record {
  o_rdwr = false;
  o_wronly = true;
  o_trunc = false;
  o_creat = true;
  o_directory = false;
  o_nofollow = false;
}

systems-IsLinkFree : (i : ℕ) (m : Memfs) → MemfsTable.get systems i ≡ some m → IsLinkFree m.fs
unfolding MemfsTable.get find
systems-IsLinkFree i m h = elim (Bool-cases (0 == i)) [
  | inl zero_slot ↦
      let found = rw zero_slot at h in
      let e : root ≡ m = cc in
      subst (λ x. IsLinkFree x.fs) e (record { reads = λ v. refl; plain = λ v. ground arith })
  | inr other ↦ absurd (ground arith)
]

opt-absolute : is_absolute (parse (ascii "/opt")) ≡ true
unfolding parse split names bytes_eq
opt-absolute = refl

rules-absolute :
    (inode : ℕ) (e target : Bytes)
    → MountTable.get rules (inode, e) ≡ some (path target)
    → is_absolute (parse target) ≡ true
unfolding MountTable.get find
rules-absolute inode e target h = elim (Bool-cases (point_eq (0, ascii "m") (inode, e))) [
  | inl same ↦
      let found = rw same at h in
      let k : ascii "/opt" ≡ target = cc in subst (λ t. is_absolute (parse t) ≡ true) k opt-absolute
  | inr other ↦ absurd (ground arith)
]

rules-IsPlain : IsPlain rules systems root 0
unfolding MemfsTable.get find
rules-IsPlain = record {
  mounted = refl;
  starts = refl;
  tree = record { link_free = systems-IsLinkFree; absolute = rules-absolute };
}

dwarfs_stat_across_example :
    dwarfs_stat rules systems none outside 3 (ascii "/__tebako_memfs__/m/a") true []
    ≡ some (record {
      ret = dwarfs_s_link_outside;
      st = (one_file.getattr 0).1;
      lnk = ascii "/opt/a";
      errno = none;
    })
unfolding parse split names bytes_eq MountTable.get find generic_string lexically_normal normal_loop
    normal_step climb closing append_all append append_name is_tebako_path starts_with
dwarfs_stat_across_example =
    dwarfs_stat_across rules systems none outside 3 root 0 (ascii "/__tebako_memfs__/m/a") true []
      rules-IsPlain (omega arith) (refl, refl, (refl, refl, tt)) (omega arith) refl

open_leaves_example :
    (tebako_open counter
        (search_root rules systems none outside 3)
        none
        []
        (3, λ j. false)
        (some (ascii "/__tebako_memfs__/m/a"))
        to_write
      ≡ ([], (3, λ j. false), passed (none, ascii "/opt/a")))
    × (tebako_stat
          (search_root rules systems none outside 3)
          systems
          none
          (some (ascii "/__tebako_memfs__/m/a"))
        ≡ passed (ascii "/opt/a"))
unfolding to_tebako_path tebako_path_assign parse split names bytes_eq MountTable.get find
    generic_string lexically_normal normal_loop normal_step climb closing append_all append
    append_name is_tebako_path starts_with
open_leaves_example =
    open_leaves rules systems none outside counter 3 root root 0 0 (ascii "/__tebako_memfs__/m/a")
      (ascii "/__tebako_memfs__/m/a") (ascii "/opt/a") to_write [] (3, λ j. false) rules-IsPlain
      refl (omega arith) (refl, refl, (refl, refl, tt)) (omega arith) refl refl
