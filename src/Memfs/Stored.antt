-- ===== src/Memfs/Stored.antt =====
-- What the inode operations give for a file and for a directory that the image holds.
use libdwarfs.Prelude.{
  drop-at, drop-ge, Bool-cases, inl, inr, ℕ, ℤ, pos, zero, suc, ◌+◌, ◌%◌, ◌^◌, ◌<◌, ◌≤◌, ◌≡◌, refl,
  ap, true, none, some, List, [], ◌∷◌, Bytes, length, take, drop, get_elem?, length-take, arith,
  ltb,
}
use libdwarfs.Errno.{returns, dwarfs_io_error}
use libdwarfs.Dwarfs.{Filesystem}
use libdwarfs.Root.{Dirent}
use libdwarfs.Fd.Seek.{off_max}
use libdwarfs.Fd.Contents.{chunk}
use libdwarfs.Memfs.State.{Memfs}
use libdwarfs.Memfs.Inode.{dwarfs_file_stat, fill_entry, fill_cache, inode_read, inode_readdir}

-- The library reads the inode as a file of these bytes.
pub record HoldsFile (fs : Filesystem) (inode : ℕ) (content : Bytes) : Type 0 where
  pub fits : length content ≤ off_max
  pub reads :
      (n off : ℕ)
      → off ≤ off_max
      → fs.read inode n (pos off) ≡ (pos (length (chunk content off n)), chunk content off n)

-- The library lists the inode as a directory of these views and names.
pub record HoldsDirectory (fs : Filesystem) (inode : ℕ) (items : List (ℕ × Bytes)) : Type 0 where
  pub view : ℕ
  pub dir : ℕ
  pub found : fs.find inode ≡ some view
  pub opens : fs.opendir view ≡ some dir
  pub size : fs.dirsize dir ≡ length items
  pub small : length items < 2 ^ 31
  pub reads : (i : ℕ) → fs.readdir dir i ≡ get_elem? items i
  pub attributes : (v : ℕ) → (fs.getattr v).0 ≡ pos 0

-- The entries of a directory, the first at position `at`.
abbrev pub entries_at : Filesystem → ℕ → List (ℕ × Bytes) → List Dirent
entries_at fs at [] = []
entries_at fs at ((v, name) ∷ items) =
    fill_entry (fs.getattr v).1 at name ∷ entries_at fs (at + 1) items

pub length-entries_at :
    (fs : Filesystem) (at : ℕ) (items : List (ℕ × Bytes))
    → length (entries_at fs at items) ≡ length items
length-entries_at fs at [] = refl
length-entries_at fs at (x ∷ items) = ap suc (length-entries_at fs (at + 1) items)

pub drop-entries_at :
    (fs : Filesystem) (at k : ℕ) (items : List (ℕ × Bytes))
    → drop k (entries_at fs at items) ≡ entries_at fs (at + k) (drop k items)
drop-entries_at fs at zero items = ap (λ n. entries_at fs n items) (omega arith)
drop-entries_at fs at (suc k) [] = refl
drop-entries_at fs at (suc k) (x ∷ items) =
    let e : at + suc k ≡ (at + 1) + k = omega arith in rw e (drop-entries_at fs (at + 1) k items)

pub inode_read_lem :
    (m : Memfs) (inode : ℕ) (content : Bytes) (n off : ℕ)
    → HoldsFile m.fs inode content
    → n < 2 ^ 31
    → off ≤ off_max
    → inode_read m inode n (pos off)
      ≡ returns (pos (length (chunk content off n)), chunk content off n)
unfolding inode_read
inode_read_lem m inode content n off h k o =
    rw (h.reads n off o) (ground (arith, length-take n (drop off content)))

file_stat_lem :
    (fs : Filesystem) (v : ℕ)
    → (fs.getattr v).0 ≡ pos 0
    → dwarfs_file_stat fs v ≡ (pos 0, none, (fs.getattr v).1)
unfolding dwarfs_file_stat
file_stat_lem fs v e = rw e refl

fill_cache_lem :
    (room at : ℕ) (fs : Filesystem) (dir : ℕ) (items : List (ℕ × Bytes)) (ret : ℤ)
    → ((v : ℕ) → (fs.getattr v).0 ≡ pos 0)
    → ((i : ℕ) → fs.readdir dir i ≡ get_elem? items i)
    → length items < 2 ^ 31
    → at ≤ length items
    → let f = fill_cache room fs dir (length items) at ret none in
      (f.ok ≡ true) × (f.errno ≡ none) × (f.entries ≡ take room (entries_at fs at (drop at items)))
unfolding fill_cache
fill_cache_lem zero at fs dir items ret a r s h = (refl, refl, refl)
fill_cache_lem (suc room) at fs dir items ret a r s h = elim (Bool-cases (ltb at (length items))) [
  | inl more ↦
      let (x, g, d) = drop-at at items (ground arith) in
      let wrap : (at + 1) % 2 ^ 64 ≡ at + 1 = omega arith in
      let rest = fill_cache_lem room (at + 1) fs dir items (pos 0) a r s (ground arith) in
      rw (fill_cache, more, r at, g, d, file_stat_lem fs x.0 (a x.0), wrap)
        (rest.0, rest.1, ap (λ es. fill_entry (fs.getattr x.0).1 at x.1 ∷ es) rest.2)
  | inr past ↦
      let (g, d) = drop-ge at items (ground arith) in rw (fill_cache, past, d) (refl, refl, refl)
]

-- A call that starts within the directory gives the entries from there on, as many as the buffer takes.
pub inode_readdir_lem :
    (m : Memfs) (inode : ℕ) (items : List (ℕ × Bytes)) (start buffer_size : ℕ)
    → HoldsDirectory m.fs inode items
    → start ≤ length items
    → inode_readdir m inode (pos start) buffer_size ≡ record {
      ret = pos 0;
      entries = take buffer_size (drop start (entries_at m.fs 0 items));
      dir_size = some (length items);
      errno = none;
    }
unfolding inode_readdir
inode_readdir_lem m inode items start buffer_size h k =
    let from_zero : 0 + start ≡ start = omega arith in
    let low : start % 2 ^ 64 ≡ start = omega (arith, h.small) in
    let (ok, quiet, es) =
      fill_cache_lem buffer_size start m.fs h.dir items dwarfs_io_error h.attributes h.reads h.small
        k in
    rw
      (
        inode_readdir,
        h.found,
        h.opens,
        h.size,
        low,
        ok,
        quiet,
        es,
        drop-entries_at m.fs 0 start items,
        from_zero,
      )
      refl
