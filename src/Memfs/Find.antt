-- ===== src/Memfs/Find.antt =====
-- The search for a path in the mounted images: memfs::find_inode, process_inode and process_link in
-- src/tebako-memfs.cpp. Mount points and relative links restart the search on a new path, so that it
-- need not end; the fuel counts the rounds of the loop, over all images, and `none` is fuel run out.
-- The iterator is what is left of the path from it on. Nothing throws.
use libdwarfs.Prelude.{
  ℕ, ℤ, pos, zero, suc, ◌+◌, ◌%◌, ◌^◌, neg, ◌==ℤ◌, Bool, true, false, not, ◌||◌, Option, none, some,
  [], ◌∷◌, Bytes, if◌then◌else◌, ltb, length, drop, get_or, ◌==◌,
}
use libdwarfs.Errno.{
  Errno, dwarfs_io_continue, dwarfs_io_error, dwarfs_s_link_absolute, dwarfs_s_link_relative,
  dwarfs_s_link_outside, enoent,
}
use libdwarfs.Dwarfs.{Stat, Filesystem, is_lnk}
use libdwarfs.Root.{Found}
use libdwarfs.Paths.{
  FsPath, parse, generic_string, append_all, is_absolute, lexically_normal, is_empty,
}
use libdwarfs.Cwd.{is_tebako_path}
use libdwarfs.Memfs.State.{Memfs}
use libdwarfs.MemfsTable as MemfsTable
use libdwarfs.MemfsTable.{MemfsTable}
use libdwarfs.MountTable as MountTable
use libdwarfs.MountTable.{MountTable, path, memfs}

-- What one step leaves: the code, errno, the attributes read last, `lnk` and the rest of the path.
pub record Step : Type 0 where
  pub ret : ℤ
  pub errno : Option Errno
  pub st : Stat
  pub lnk : Bytes
  pub rest : FsPath

abbrev pub unread : Stat
unread = record { st_ino = 0; st_mode = 0; st_size = pos 0 }

abbrev pub next : FsPath → FsPath
next [] = []
next (e ∷ p) = p

abbrev pub at_end : FsPath → Bool
at_end [] = true
at_end (e ∷ p) = false

-- The new path starts with the link. An absolute one leaves the path under traverse as it was.
unfoldable pub process_link : Bytes → FsPath → ℤ × Bytes × FsPath
process_link lnk rest =
    let new_path = lexically_normal (append_all (parse lnk) rest) in
    if is_absolute new_path
    then (dwarfs_s_link_absolute, generic_string new_path, rest)
    else (dwarfs_s_link_relative, generic_string new_path, new_path)

unfoldable pub follow_link : Filesystem → ℕ → Stat → FsPath → Step
follow_link fs view st rest =
    let (err, target) = fs.readlink view in
    let (ret, lnk, rest') = process_link target rest in
    if err ==ℤ pos 0
    then record { ret = ret; errno = none; st = st; lnk = lnk; rest = rest' }
    else record {
      ret = dwarfs_io_error;
      errno = some (neg err);
      st = st;
      lnk = target;
      rest = rest;
    }

-- A link is stepped over, and followed unless it is the last element and `follow` is not set.
unfoldable pub process_inode : Filesystem → ℕ → Bool → Bytes → FsPath → Step
process_inode fs view follow lnk rest =
    let (err, st) = fs.getattr view in
    let here : Step = record {
      ret = dwarfs_io_continue;
      errno = none;
      st = st;
      lnk = lnk;
      rest = rest;
    } in
    if err ==ℤ pos 0
    then (if is_lnk st.st_mode
        then (if not (at_end (next rest)) || follow
            then follow_link fs view st (next rest)
            else record here { rest = next rest })
        else here)
    else record here { ret = dwarfs_io_error; errno = some (neg err) }

-- `*st` is written unless the search fails.
unfoldable pub finish : Step → Found
finish s = record {
  ret = s.ret;
  st = if s.ret ==ℤ dwarfs_io_error then unread else s.st;
  lnk = s.lnk;
  errno = s.errno;
}

abbrev pub missing : Bytes → Found
missing lnk = record { ret = dwarfs_io_error; st = unread; lnk = lnk; errno = some enoent }

-- pi->inode_num() + get_root_inode(), a `uint32_t`.
abbrev pub inode_of : Memfs → ℕ → ℕ
inode_of m view = (m.fs.inode_num view + m.dwarfs_root_inode) % 2 ^ 32

-- The start of the search, in front of its loop.
unfoldable pub enter :
    (Memfs → ℕ → Step → Option Found) → Memfs → ℕ → FsPath → Bool → Bytes → Option Found
enter loop m start_from sought follow lnk = elim (m.fs.find start_from) [
  | none ↦ some (missing lnk)
  | some view ↦
      let s = process_inode m.fs view follow lnk sought in
      if s.ret ==ℤ dwarfs_io_continue then loop m view s else some (finish s)
]

module _ (mounts : MountTable) (systems : MemfsTable) (follow : Bool) where
  -- One round in front of a mount point.
  unfoldable pub cross :
      (Memfs → ℕ → Step → Option Found) → Memfs → ℕ → Step → MountTable.MountTarget → Option Found
  cross loop m view s (path target) =
      let (ret, lnk, rest) = process_link target (next s.rest) in
      if ret ==ℤ dwarfs_s_link_relative
      then loop m view (record s { lnk = lnk; rest = rest })
      else some (finish (record s { ret = ret; lnk = lnk }))
  cross loop m view s (memfs index) = elim (MemfsTable.get systems index) [
    | none ↦ some (missing s.lnk)
    | some other ↦
        enter loop other other.dwarfs_root_inode (append_all [] (next s.rest)) follow s.lnk
  ]

  -- One round at an element that is no mount point.
  unfoldable pub descend :
      (Memfs → ℕ → Step → Option Found) → Memfs → ℕ → Step → Bytes → Option Found
  descend loop m view s e = elim (m.fs.find_at (inode_of m view) e) [
    | none ↦ some (missing s.lnk)
    | some child ↦
        let p = process_inode m.fs child follow s.lnk s.rest in
        if p.ret ==ℤ dwarfs_s_link_relative
        then loop m view (record p { ret = dwarfs_io_continue })
        else if p.ret ==ℤ dwarfs_io_continue
        then loop m child (record p { rest = next p.rest })
        else some (finish p)
  ]

  unfoldable pub find_loop : ℕ → Memfs → ℕ → Step → Option Found
  find_loop zero m view s = none
  find_loop (suc fuel) m view s =
      let e = get_or s.rest 0 [] in
      if at_end s.rest || is_empty e
      then some (finish s)
      else elim (MountTable.get mounts (inode_of m view, e)) [
        | some target ↦ cross (find_loop fuel) m view s target
        | none ↦ descend (find_loop fuel) m view s e
      ]

  unfoldable pub find_inode : ℕ → Memfs → ℕ → FsPath → Bytes → Option Found
  find_inode fuel m start_from sought lnk = enter (find_loop fuel) m start_from sought follow lnk

  -- An absolute link within memfs is looked up by `tebako_stat`, which gives the code, `*st` and errno.
  unfoldable pub find_inode_abs :
      (Bytes → Option Found) → ℕ → Memfs → ℕ → FsPath → Bytes → Option Found
  find_inode_abs tebako_stat fuel m start_from sought lnk =
      elim (find_inode fuel m start_from sought lnk) [
        | none ↦ none
        | some f ↦
            if f.ret ==ℤ dwarfs_s_link_absolute
            then (if is_tebako_path f.lnk
                then (if follow
                    then elim (tebako_stat f.lnk) [
                      | none ↦ none
                      | some g ↦ some (record g { lnk = f.lnk })
                    ]
                    else some (record f { ret = dwarfs_io_continue }))
                else some (record f { ret = dwarfs_s_link_outside }))
            else some f
      ]

  -- The mount point and a separator behind it are cut off. The byte behind the mount point is not
  -- looked at where there is none.
  unfoldable pub find_inode_root : (Bytes → Option Found) → ℕ → Memfs → Bytes → Bytes → Option Found
  find_inode_root tebako_stat fuel m sought lnk =
      let adjusted = if length sought == 17 then drop 17 sought else drop 18 sought in
      if ltb (length sought) 17
      then some (missing lnk)
      else find_inode_abs tebako_stat fuel m m.dwarfs_root_inode (parse adjusted) lnk
