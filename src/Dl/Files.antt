-- ===== src/Dl/Files.antt =====
-- What map2file makes of a file of memfs.
use libdwarfs.Prelude.{
  ℕ, ℤ, ltb_ℤ, pos, suc, ◌-◌, ◌*◌, ◌≤◌, ◌≡◌, refl, ap, ◌∙◌, true, false, none, some, [], Bytes,
  length, drop, arith, subst,
}
use libdwarfs.Prelude.Maps.{
  find, assign, erase, int_eq, bytes_key, find-assign_self, find-erase_self,
}
use libdwarfs.Dwarfs.{Stat}
use libdwarfs.Root.{Root}
use libdwarfs.System.{System, IsPosix}
use libdwarfs.Cwd.{Cwd, to_tebako_path}
use libdwarfs.Paths.Parts.{parent_path}
use libdwarfs.Fd.State.{Fd, FdTable}
use libdwarfs.Fd.Seek.{to_u64}
use libdwarfs.Fd.Descriptors.{IsBacked, admits, new_entry}
use libdwarfs.Fd.Contents.{HasContent}
use libdwarfs.Dl.Foreign.{Host, read_only, open_file, stat_file}
use libdwarfs.Dl.Handles.{open_file_lem, stat_file_lem, close_file_lem}
use libdwarfs.Dl.Copy.{Disk, IsCopied, copy_lem}
use libdwarfs.Dl.{
  Loader, Copied, bsize, map_name, copy, keep_copy, copy_open, close_in, extract, map2file,
}

module _ (sys : System) (posix : IsPosix sys) (host : Host sys) (disk : Disk sys host) (root : Root)
    (cwd : Cwd) where
  open sys use {Os, dup, is_open}

  -- What a load of a file leaves: the copy holds the file and is in the table, the stash is as it was, the
  -- descriptor `n` of memfs is closed, in the table and for the system, and so is the descriptor of the
  -- copy.
  pub record IsExtracted (before : Loader Os) (path mapped content : Bytes) (n fh_out : ℕ)
      (after : Loader Os) : Type 0 where
    pub holds : disk.held after.os mapped ≡ content
    pub in_table : find path after.table ≡ some mapped
    pub quiet : after.stash ≡ before.stash
    pub closed : find (pos n) after.fds ≡ none
    pub given_back : is_open after.os n ≡ false
    pub copy_closed : is_open after.os fh_out ≡ false

  copy_open_step :
      (fuel : ℕ) (s : Loader Os) (os' : Os) (st : Stat) (fh_in : ℤ) (fh_out : ℕ)
      (path mapped : Bytes) (c : Copied Os)
      → stat_file sys host s.fds s.os fh_in ≡ (pos 0, st)
      → host.create s.os mapped st.st_mode ≡ some (fh_out, os')
      → copy sys host root cwd fuel s.fds os' fh_in fh_out (to_u64 st.st_size) ≡ some c
      → copy_open sys host root cwd fuel s fh_in path mapped
        ≡ some (keep_copy sys host root cwd s c fh_out path mapped)
  unfolding copy_open
  copy_open_step fuel s os' st fh_in fh_out path mapped c g m e =
      rw (copy_open, g, m) (rw (g, e) refl)

  copy_open_lem :
      (fuel : ℕ) (s : Loader Os) (os' : Os) (fd : Fd) (fh_in : ℤ) (n fh_out : ℕ)
      (path mapped content : Bytes)
      → HasContent root fd.st.st_ino content
      → fd.st.st_size ≡ pos (length content)
      → find fh_in s.fds ≡ some fd
      → fd.position ≡ 0
      → fd.handle ≡ some n
      → host.create s.os mapped fd.st.st_mode ≡ some (fh_out, os')
      → disk.held s.os mapped ≡ []
      → length content ≤ fuel * bsize
      → (c : Copied Os) × (copy_open sys host root cwd (suc fuel) s fh_in path mapped
          ≡ some (keep_copy sys host root cwd s c fh_out path mapped))
        × IsCopied sys host disk fh_in fh_out fd mapped [] content c
  copy_open_lem fuel s os' fd fh_in n fh_out path mapped content h size f start handle made fresh
        enough =
      let whole : length content - fd.position ≡ to_u64 fd.st.st_size = ground (arith, h.fits) in
      let (named, same) = disk.creates s.os os' mapped fd.st.st_mode fh_out made in
      let (c, e, q) =
        copy_lem sys host disk root cwd fuel mapped [] content s.fds os' fh_in fh_out fd h f
          (omega arith) (omega (arith, start)) named (same mapped ∙ fresh) in
      (
        c,
        copy_open_step (suc fuel) s os' fd.st fh_in fh_out path mapped c
            (stat_file_lem sys host root cwd s.fds s.os fh_in fd f) made
            (subst (λ k. copy sys host root cwd (suc fuel) s.fds os' fh_in fh_out k ≡ some c) whole
              e),
        q,
      )

  -- The state behind a copy of the whole file.
  abbrev finished : Loader Os → Copied Os → ℕ → ℕ → ℤ → Bytes → Bytes → Loader Os
  finished s c fh_out n vfd path mapped = record s {
    os = sys.close (sys.close c.os fh_out) n;
    fds = erase vfd c.fds;
    table = assign path mapped s.table;
  }

  keep_copy_lem :
      (s : Loader Os) (c : Copied Os) (fh_out : ℕ) (path mapped : Bytes)
      → c.left ≡ 0
      → keep_copy sys host root cwd s c fh_out path mapped ≡ (
        mapped,
        record s { fds = c.fds; os = sys.close c.os fh_out; table = assign path mapped s.table },
      )
  unfolding keep_copy
  keep_copy_lem s c fh_out path mapped e = rw (keep_copy, e) refl

  close_in_lem :
      (ret : Bytes) (s : Loader Os) (vfd : ℤ) (fd : Fd) (n : ℕ)
      → find vfd s.fds ≡ some fd
      → fd.handle ≡ some n
      → close_in sys host root cwd (ret, s) vfd
        ≡ (ret, record s { fds = erase vfd s.fds; os = sys.close s.os n })
  unfolding close_in
  close_in_lem ret s vfd fd n f h =
      let e = close_file_lem sys host root cwd s.fds s.os vfd fd n f h in rw (close_in, e) refl

  finished_lem :
      (s : Loader Os) (fd : Fd) (n fh_out : ℕ) (vfd : ℤ) (path mapped content : Bytes)
      (c : Copied Os)
      → IsCopied sys host disk vfd fh_out fd mapped [] content c
      → fd.handle ≡ some n
      → close_in sys host root cwd (keep_copy sys host root cwd s c fh_out path mapped) vfd
        ≡ (mapped, finished s c fh_out n vfd path mapped)
  finished_lem s fd n fh_out vfd path mapped content c q handle =
      ap (λ r. close_in sys host root cwd r vfd) (keep_copy_lem s c fh_out path mapped q.whole)
      ∙ close_in_lem mapped _ vfd (record fd { position = length content }) n q.found handle

  finished-IsExtracted :
      (s before : Loader Os) (fd : Fd) (n fh_out : ℕ) (path mapped content : Bytes) (c : Copied Os)
      → IsCopied sys host disk (pos n) fh_out fd mapped [] content c
      → fd.position ≡ 0
      → s.stash ≡ before.stash
      → IsExtracted before path mapped content n fh_out (finished s c fh_out n (pos n) path mapped)
  finished-IsExtracted s before fd n fh_out path mapped content c q start quiet = record {
    holds =
        disk.closes (sys.close c.os fh_out) n mapped
        ∙ disk.closes c.os fh_out mapped
        ∙ q.holds
        ∙ ap (λ k. drop k content) start;
    in_table = find-assign_self path mapped s.table;
    quiet = quiet;
    closed = find-erase_self (pos n) c.fds;
    given_back = ground (arith, posix.close_closes (sys.close c.os fh_out) n n);
    copy_closed = ground (
      arith,
      posix.close_closes (sys.close c.os fh_out) n fh_out,
      posix.close_closes c.os fh_out fh_out,
    );
  }

  extract_step :
      (fuel : ℕ) (s : Loader Os) (fds : FdTable) (os : Os) (n : ℕ) (path mapped : Bytes)
      (r : Bytes × Loader Os)
      → open_file sys host root cwd s.fds s.os path ≡ (fds, os, pos n)
      → copy_open sys host root cwd fuel (record s { fds = fds; os = os }) (pos n) path mapped
        ≡ some r
      → extract sys host root cwd fuel s path mapped ≡ some (close_in sys host root cwd r (pos n))
  unfolding extract
  extract_step fuel s fds os n path mapped r o c =
      let nonneg : ltb_ℤ (pos n) (pos 0) ≡ false = ground arith in
      rw (extract, o) (rw c (rw (o, nonneg) refl))

  pub map2file_copies :
      (fuel n fh_out : ℕ) (s : Loader Os) (os₁ os₂ os₃ : Os) (dl_tmpdir path content : Bytes)
      → let f = root.stat path true path in
        let mapped = map_name dl_tmpdir path in
        find path s.table ≡ none
        → to_tebako_path cwd path ≡ some path
        → admits read_only f ≡ true
        → HasContent root f.st.st_ino content
        → f.st.st_size ≡ pos (length content)
        → host.create_directories s.os (parent_path mapped) ≡ some os₁
        → IsBacked sys s.fds os₁
        → dup os₁ ≡ some (n, os₂)
        → host.create os₂ mapped f.st.st_mode ≡ some (fh_out, os₃)
        → disk.held os₂ mapped ≡ []
        → length content ≤ fuel * bsize
        → (after : Loader Os) × (map2file sys host root cwd (suc fuel) dl_tmpdir s path
            ≡ some (mapped, after))
          × IsExtracted s path mapped content n fh_out after
  unfolding map2file
  map2file_copies fuel n fh_out s os₁ os₂ os₃ dl_tmpdir path content new own h holds size made
        backed d created fresh enough =
      let f = root.stat path true path in
      let mapped = map_name dl_tmpdir path in
      let fds = assign (pos n) (new_entry f n) s.fds in
      let opened : Loader Os = record s { fds = fds; os = os₂ } in
      let (c, e, q) =
        copy_open_lem fuel opened os₃ (new_entry f n) (pos n) n fh_out path mapped content holds
          size (find-assign_self (pos n) (new_entry f n) s.fds) refl refl created fresh enough in
      let extracted =
        extract_step (suc fuel) (record s { os = os₁ }) fds os₂ n path mapped _
          (open_file_lem sys posix host root cwd s.fds os₁ os₂ n path path own h backed d) e in
      let ends =
        finished_lem opened (new_entry f n) n fh_out (pos n) path mapped content c q refl in
      (
        finished opened c fh_out n (pos n) path mapped,
        rw (map2file, new, made) (extracted ∙ ap (λ r. some r) ends),
        finished-IsExtracted opened s (new_entry f n) n fh_out path mapped content c q refl refl,
      )
