-- ===== src/Search/Links/Tests.antt =====
-- An image in which a link leads to a file in another directory, and the theorems at this input.
use libdwarfs.Prelude.{
  ℤ, pos, ◌==◌, ◌&&◌, ◌≡◌, refl, true, false, none, some, [], ◌∷◌, Bytes, ascii, bytes_eq,
  starts_with, if◌then◌else◌, arith,
}
use libdwarfs.Prelude.Maps.{find}
use libdwarfs.Errno.{Out, returns, fails, enoent, dwarfs_io_error}
use libdwarfs.Dwarfs.{Stat, Filesystem}
use libdwarfs.Paths.{
  parse, split, names, generic_string, lexically_normal, normal_loop, normal_step, climb, closing,
}
use libdwarfs.Cwd.{to_tebako_path, tebako_path_assign, is_tebako_path}
use libdwarfs.System.Samples.{counter, counter-IsPosix}
use libdwarfs.Fd.Open.{OpenFlags}
use libdwarfs.Memfs.Find.{unread}
use libdwarfs.Memfs.Samples.{one_file, holding, text}
use libdwarfs.Memfs.Stored.{HoldsFile}
use libdwarfs.Memfs.Links.{here, down, link, steps}
use libdwarfs.MemfsTable as MemfsTable
use libdwarfs.MemfsTable.{MemfsTable}
use libdwarfs.MemfsTable.Inode.{get_fs_index}
use libdwarfs.MountTable as MountTable
use libdwarfs.Calls.{answered, tebako_stat}
use libdwarfs.FileIo.{tebako_open, tebako_read}
use libdwarfs.Search.{search_root}
use libdwarfs.Search.Links.{Names, open_read_resolves}

-- In the root directory, view 0, `l` is a link to `d/a`, view 1, and `d` a directory, view 2; `a` is a
-- file in it, view 3.
abbrev linked : Filesystem
linked = record one_file {
  find_at = λ i s.
      if i == 0 && bytes_eq s (ascii "l")
      then some 1
      else if i == 0 && bytes_eq s (ascii "d")
      then some 2
      else if i == 2 && bytes_eq s (ascii "a")
      then some 3
      else none;
  getattr = λ v. (
    pos 0,
    record {
      st_ino = v;
      st_mode = if v == 1 then 0o120777 else if v == 3 then 0o100444 else 0o040555;
      st_size = pos 11;
    },
  );
  readlink = λ v. (pos 0, ascii "d/a");
}

abbrev systems : MemfsTable
systems = (0, holding linked) ∷ []

abbrev outside : Bytes → Out (ℤ × Stat)
outside p = fails (dwarfs_io_error, unread) enoent

abbrev read_only : OpenFlags
read_only = record {
  o_rdwr = false;
  o_wronly = false;
  o_trunc = false;
  o_creat = false;
  o_directory = false;
  o_nofollow = false;
}

abbrev path_of_link : Bytes
path_of_link = ascii "/__tebako_memfs__/l"

names_file : Names [] systems path_of_link (holding linked) 3
unfolding parse split names bytes_eq MountTable.get MemfsTable.get find
names_file = record {
  root = holding linked;
  top = 0;
  rooted = record { mounted = refl; starts = refl; node = record { reads = refl; plain = refl } };
  long = omega arith;
  entries = (record { filled = refl; inner = refl; no_dot = refl; no_up = refl }, tt);
  resolves =
      link 1 refl refl
        (record {
          text = ascii "d/a";
          reads = refl;
          link = refl;
          to_text = refl;
          parsed = refl;
          entries = (
            record { filled = refl; inner = refl; no_dot = refl; no_up = refl },
            (record { filled = refl; inner = refl; no_dot = refl; no_up = refl }, tt),
          );
        })
        (down 2 refl refl (record { reads = refl; plain = refl })
          (down 3 refl refl (record { reads = refl; plain = refl }) here))
        here;
}

linked-HoldsFile : HoldsFile linked 3 text
linked-HoldsFile = record { fits = omega arith; reads = λ n off h. refl }

open_read_resolves_example :
    let root = search_root [] systems none outside 4 in
    let opened = tebako_open counter root none [] (3, λ j. false) (some path_of_link) read_only in
    (tebako_stat root systems none (some path_of_link)
      ≡ answered (returns (pos 0, (linked.getattr 3).1)))
    × (opened.2 ≡ answered (returns (pos 3)))
    × ((tebako_read (λ vfd. false) root opened.0 (pos 3) 5).1
        ≡ answered (returns (pos 5, ascii "hello")))
unfolding to_tebako_path tebako_path_assign is_tebako_path starts_with generic_string
    lexically_normal normal_loop normal_step climb closing parse split names bytes_eq MemfsTable.get
    get_fs_index find steps names_file
open_read_resolves_example =
    open_read_resolves [] systems none outside counter counter-IsPosix 4 (holding linked) 3 3 5
      path_of_link path_of_link text read_only [] (3, λ j. false)
      (4, λ j. if 3 == j then true else false) (λ vfd. false) names_file refl (omega arith) refl
      linked-HoldsFile refl refl refl (λ vfd fd h. ground arith) refl (omega arith)
