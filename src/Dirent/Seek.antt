-- ===== src/Dirent/Seek.antt =====
-- telldir and seekdir on a directory stream: going back to a position that was told.
use libdwarfs.Prelude.{
  ℕ, pos, zero, suc, ◌+◌, ◌^◌, ◌<◌, ◌≡◌, refl, sym, ◌∙◌, List, length, ltb, if◌then◌else◌, arith,
}
use libdwarfs.Prelude.Maps.{nat_eq, find-assign_self}
use libdwarfs.Errno.{dwarfs_io_continue}
use libdwarfs.Root.{Root, Dirent}
use libdwarfs.Fd.State.{FdTable}
use libdwarfs.Dirent.{DsTable, telldir, seekdir, readdir}
use libdwarfs.Dirent.Stream.{Streams, readdir_lem}

-- The table behind a number of calls of readdir.
abbrev pub reads : Root → FdTable → ℕ → DsTable → ℕ → DsTable
reads root fds zero t dirp = t
reads root fds (suc k) t dirp = reads root fds k (readdir root fds t dirp).0 dirp

module _ (root : Root) (fds : FdTable) (entries : List Dirent) (dirp : ℕ) where
  reads-Streams :
      (k p : ℕ) (t : DsTable)
      → Streams root fds entries p t dirp
      → p < 2 ^ 63
      → (q : ℕ) × Streams root fds entries q (reads root fds k t dirp) dirp
  reads-Streams zero p t s h = (p, s)
  reads-Streams (suc k) p t s h =
      reads-Streams k (if ltb p (length entries) then p + 1 else p) (readdir root fds t dirp).0
        (readdir_lem root fds entries t dirp p s h).1 (ground (arith, s.names.small))

  telldir-Streams :
      (p : ℕ) (t : DsTable) → Streams root fds entries p t dirp → telldir t dirp ≡ pos p
  unfolding telldir
  telldir-Streams p t s = rw (telldir, s.found) s.position

  seekdir-Streams :
      (p q : ℕ) (t : DsTable)
      → Streams root fds entries q t dirp
      → let r = seekdir t dirp (pos p) in
        (r.1 ≡ dwarfs_io_continue) × Streams root fds entries p r.0 dirp
  unfolding seekdir
  seekdir-Streams p q t s =
      rw (seekdir, s.found)
        (
          refl,
          record {
            ds = record s.ds { dir_position = pos p };
            found = find-assign_self dirp (record s.ds { dir_position = pos p }) t;
            names = s.names;
            start = s.start;
            coherent = record {
              total = s.coherent.total;
              begins = s.coherent.begins;
              in_range = s.coherent.in_range;
              full = s.coherent.full;
              holds = s.coherent.holds;
            };
            position = refl;
          },
        )

  -- From position `p`, any number of reads, and then a seek to what telldir had given in front of them,
  -- which succeeds: telldir gives that position again, and the next read gives the entry that it would
  -- have given at first, wherever the cache stands.
  pub seekdir-telldir :
      (k p : ℕ) (t : DsTable)
      → Streams root fds entries p t dirp
      → p < 2 ^ 63
      → let back = seekdir (reads root fds k t dirp) dirp (telldir t dirp) in
        (back.1 ≡ dwarfs_io_continue)
        × (telldir back.0 dirp ≡ telldir t dirp)
        × ((readdir root fds back.0 dirp).1.value ≡ (readdir root fds t dirp).1.value)
  seekdir-telldir k p t s h =
      let there = (reads-Streams k p t s h).1 in
      let told = telldir-Streams p t s in
      let (done, again) =
        seekdir-Streams p (reads-Streams k p t s h).0 (reads root fds k t dirp) there in
      rw told (
        done,
        telldir-Streams p (seekdir (reads root fds k t dirp) dirp (pos p)).0 again,
        (readdir_lem root fds entries _ dirp p again h).0
            ∙ sym (readdir_lem root fds entries t dirp p s h).0,
      )
