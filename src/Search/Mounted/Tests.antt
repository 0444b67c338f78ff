-- ===== src/Search/Mounted/Tests.antt =====
-- A sample image mounted in another one, and a rule that leads out of memfs, with the theorems at these
-- inputs.
use libdwarfs.Prelude.{
  ℕ, ℤ, pos, ◌+◌, ◌-◌, ◌^◌, ◌==◌, if◌then◌else◌, ◌≡◌, refl, ap, true, false, Option, none, some, [],
  ◌∷◌, Bytes, ascii, starts_with, arith, bytes_eq, Bool-cases, inl, inr, subst,
}
use libdwarfs.Prelude.Maps.{find}
use libdwarfs.Errno.{Out, returns, fails, enoent, dwarfs_io_error}
use libdwarfs.Dwarfs.{Stat, Filesystem}
use libdwarfs.Paths.{
  parse, split, names, generic_string, lexically_normal, normal_loop, normal_step, climb, closing,
}
use libdwarfs.Cwd.{to_tebako_path, tebako_path_assign, is_tebako_path}
use libdwarfs.System.Samples.{counter, counter-IsPosix}
use libdwarfs.Fd.Open.{OpenFlags}
use libdwarfs.Memfs.State.{Memfs, set_root_inode}
use libdwarfs.Memfs.Find.{unread}
use libdwarfs.Memfs.Samples.{one_file, holding, text}
use libdwarfs.Memfs.Stored.{HoldsFile}
use libdwarfs.Memfs.Walk.{IsLinkFree}
use libdwarfs.MemfsTable as MemfsTable
use libdwarfs.MemfsTable.{MemfsTable, insert_auto, next_index}
use libdwarfs.MemfsTable.Inode.{get_fs_index, get_fs_ino, fs_ino_from_fs_and_ino}
use libdwarfs.MountTable as MountTable
use libdwarfs.IoRoot.{State, mount_memfs}
use libdwarfs.Calls.{answered}
use libdwarfs.FileIo.{tebako_open, tebako_read}
use libdwarfs.Search.{search_root}
use libdwarfs.Search.Mounted.{IsBare, LeadsAcross, mount_open_read}

-- The image with one file, with the inode numbers of slot 1.
abbrev shifted : Filesystem
shifted = record one_file {
  find = λ i. some (i - 2 ^ 31);
  getattr = λ v. (
    pos 0,
    record {
      st_ino = v + 2 ^ 31;
      st_mode = if v == 0 then 0o040555 else 0o100444;
      st_size = pos 11;
    },
  );
}

abbrev bare : State counter.Os
bare = record {
  os = (3, λ j. false);
  fds = [];
  streams = [];
  mounts = [];
  file_systems = (0, holding one_file) ∷ [];
  cwd = none;
}

abbrev parse_image : Memfs → Option Bytes → Option Filesystem
parse_image m offset = some shifted

abbrev outside : Bytes → Out (ℤ × Stat)
outside path = fails (dwarfs_io_error, unread) enoent

abbrev read_only : OpenFlags
read_only = record {
  o_rdwr = false;
  o_wronly = false;
  o_trunc = false;
  o_creat = false;
  o_directory = false;
  o_nofollow = false;
}

one_file-IsLinkFree : IsLinkFree one_file
one_file-IsLinkFree = record { reads = λ v. refl; plain = λ v. ground arith }

bare-IsLinkFree :
    (i : ℕ) (m : Memfs) → MemfsTable.get bare.file_systems i ≡ some m → IsLinkFree m.fs
unfolding MemfsTable.get find
bare-IsLinkFree i m h = elim (Bool-cases (0 == i)) [
  | inl root ↦
      let found = rw root at h in
      let e : holding one_file ≡ m = cc in subst (λ x. IsLinkFree x.fs) e one_file-IsLinkFree
  | inr other ↦ absurd (ground arith)
]

bare-IsBare : IsBare bare (holding one_file) 0
unfolding MemfsTable.get find MountTable.get
bare-IsBare = record {
  ordered = (omega arith, tt);
  mounted = refl;
  starts = refl;
  link_free = bare-IsLinkFree;
  unmounted = λ inode e. refl;
}

shifted-IsLinkFree : IsLinkFree shifted
shifted-IsLinkFree = record { reads = λ v. refl; plain = λ v. ground arith }

shifted-HoldsFile : HoldsFile shifted (1 + 2 ^ 31) text
shifted-HoldsFile = record { fits = omega arith; reads = λ n off h. refl }

abbrev new : Memfs
new = record { image = 7; size = 9; dwarfs_root_inode = 2 ^ 31; fs = shifted }

leads : LeadsAcross (holding one_file) new 0 0 (0, ascii "m") [] (ascii "a" ∷ []) 1
unfolding bytes_eq
leads = record {
  dir = 0;
  down = refl;
  place = refl;
  clear = tt;
  starts = refl;
  on = refl;
  clear_behind = (λ e. absurd (omega (arith, ap (λ q. q.0) e)), λ child h. tt);
}

mount_open_read_example :
    let r = mount_memfs counter one_file parse_image bare 7 9 (some (ascii "auto")) 0 (ascii "m") in
    let searches = search_root r.0.mounts r.0.file_systems none outside 3 in
    let opened =
      tebako_open counter searches none r.0.fds r.0.os
        (some (ascii "/__tebako_memfs__/m/a"))
        read_only in
    (r.1.value ≡ pos 1)
    × (opened.2 ≡ answered (returns (pos 3)))
    × ((tebako_read (λ vfd. false) searches opened.0 (pos 3) 5).1
        ≡ answered (returns (pos 5, ascii "hello")))
unfolding to_tebako_path tebako_path_assign is_tebako_path starts_with generic_string
    lexically_normal normal_loop normal_step climb closing parse split names bytes_eq MemfsTable.get
    get_fs_index find insert_auto next_index set_root_inode fs_ino_from_fs_and_ino get_fs_ino
mount_open_read_example =
    mount_open_read counter counter-IsPosix one_file parse_image bare (holding one_file) 0 7 9 0
      (some (ascii "auto")) (ascii "m") shifted outside 3 0 1 3 5 [] (ascii "a" ∷ [])
      (ascii "/__tebako_memfs__/m/a") (ascii "/__tebako_memfs__/m/a") text read_only
      (4, λ j. if 3 == j then true else false) (λ vfd. false) bare-IsBare (omega arith) refl
      shifted-IsLinkFree refl (omega arith) refl (refl, refl, (refl, refl, tt)) (omega arith) leads
      refl shifted-HoldsFile refl refl (λ vfd fd h. ground arith) refl (omega arith)
