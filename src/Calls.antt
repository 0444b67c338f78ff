-- ===== src/Calls.antt =====
-- The functions that stand in for the system's calls by path: src/file-ctl.cpp and src/dir-ctl.cpp. A
-- path that is not one of memfs, or that a link leads out of it, goes to the call of the same name.
pub mod Laws
mod Tests
use libdwarfs.Prelude.{
  ℕ, ℤ, pos, ◌-◌, ltb_ℤ, ◌==ℤ◌, ltb, ◌==◌, length, take, min, Bool, true, false, not, Option, none,
  some, [], Bytes, if◌then◌else◌, Option-cases,
}
use libdwarfs.Errno.{
  Errno, Out, returns, fails, later, dwarfs_io_continue, dwarfs_io_error, dwarfs_s_link_outside,
  enoent, erofs, enotdir, efault, enotsup, erange, einval,
}
use libdwarfs.Dwarfs.{Stat, is_dir}
use libdwarfs.Root.{Root, Found}
use libdwarfs.Cwd.{Cwd, to_tebako_path, tebako_set_cwd, tebako_get_cwd}
use libdwarfs.Memfs.Inode.{i_access}
use libdwarfs.Memfs.Find.{unread}
use libdwarfs.MemfsTable.{MemfsTable}
use libdwarfs.IoRoot.{dwarfs_inode_readlink}

-- The answer of memfs, or the system's call of the same name with these arguments.
pub data Answer (A P : Type 0) : Type 0 where
  answered : Out A → Answer A P
  passed : P → Answer A P

-- memfs::access, behind dwarfs_access.
unfoldable pub dwarfs_access : Root → Bytes → ℕ → Out ℤ × Bytes
dwarfs_access root path amode =
    let f = root.stat path true [] in
    let a = i_access amode f.st in
    (
      if f.ret ==ℤ dwarfs_io_continue
          then record { value = a.value; errno = later f.errno a.errno }
          else record { value = f.ret; errno = f.errno },
      f.lnk,
    )

-- memfs::readlink, behind dwarfs_readlink: the code, errno, `link` and `lnk`.
unfoldable pub dwarfs_readlink : Root → MemfsTable → Bytes → ℤ × Option Errno × Bytes × Bytes
dwarfs_readlink root t path =
    let f = root.stat path false [] in
    let r = dwarfs_inode_readlink t f.st.st_ino in
    if f.ret ==ℤ dwarfs_io_continue
    then (r.value.0, later f.errno r.errno, r.value.1, f.lnk)
    else (f.ret, f.errno, [], f.lnk)

module _ (root : Root) (systems : MemfsTable) (cwd : Cwd) where
  -- The users of the process do not matter to memfs, so that eaccess is the same.
  unfoldable pub tebako_access : Option Bytes → ℕ → Answer ℤ Bytes
  tebako_access none amode = answered (fails dwarfs_io_error enoent)
  tebako_access (some path) amode = elim (to_tebako_path cwd path) [
    | none ↦ passed path
    | some p ↦
        let (out, lnk) = dwarfs_access root p amode in
        if out.value ==ℤ dwarfs_s_link_outside then passed lnk else answered out
  ]

  unfoldable pub tebako_lstat : Option Bytes → Answer (ℤ × Stat) Bytes
  tebako_lstat none = answered (fails (dwarfs_io_error, unread) enoent)
  tebako_lstat (some path) = elim (to_tebako_path cwd path) [
    | none ↦ passed path
    | some p ↦
        let f = root.stat p false [] in
        if f.ret ==ℤ dwarfs_s_link_outside
        then passed f.lnk
        else answered (record { value = (f.ret, f.st); errno = f.errno })
  ]

  unfoldable pub tebako_stat : Option Bytes → Answer (ℤ × Stat) Bytes
  tebako_stat none = answered (fails (dwarfs_io_error, unread) enoent)
  tebako_stat (some path) = elim (to_tebako_path cwd path) [
    | none ↦ passed path
    | some p ↦
        let f = root.stat p true [] in
        if f.ret ==ℤ dwarfs_s_link_outside
        then passed f.lnk
        else answered (record { value = (f.ret, f.st); errno = f.errno })
  ]

  -- The count and the bytes of `buf`, without the zeros that strncpy writes behind a short link.
  unfoldable pub tebako_readlink : Option Bytes → ℕ → Answer (ℤ × Bytes) Bytes
  tebako_readlink none bufsize = answered (fails (dwarfs_io_error, []) enoent)
  tebako_readlink (some path) bufsize = elim (to_tebako_path cwd path) [
    | none ↦ passed path
    | some p ↦
        let (ret, e, link, lnk) = dwarfs_readlink root systems p in
        if not (ltb_ℤ ret (pos 0))
        then answered
            (record { value = (pos (min (length link) bufsize), take bufsize link); errno = e })
        else if ret ==ℤ dwarfs_s_link_outside
        then passed lnk
        else answered (record { value = (ret, []); errno = e })
  ]

  unfoldable pub tebako_getattrlist : Option Bytes → Answer ℤ Bytes
  tebako_getattrlist none = answered (fails dwarfs_io_error efault)
  tebako_getattrlist (some path) = elim (to_tebako_path cwd path) [
    | none ↦ passed path
    | some p ↦ answered (fails dwarfs_io_error enotsup)
  ]

  unfoldable pub tebako_mkdir : Option Bytes → Answer ℤ Bytes
  tebako_mkdir none = answered (fails dwarfs_io_error enoent)
  tebako_mkdir (some path) = elim (to_tebako_path cwd path) [
    | none ↦ passed path
    | some p ↦
        if (root.stat p true []).ret ==ℤ dwarfs_s_link_outside
        then passed (root.stat p true []).lnk
        else answered (fails dwarfs_io_error erofs)
  ]

  unfoldable pub tebako_rmdir : Option Bytes → Answer ℤ Bytes
  tebako_rmdir none = answered (fails dwarfs_io_error enoent)
  tebako_rmdir (some path) = elim (to_tebako_path cwd path) [
    | none ↦ passed path
    | some p ↦
        if (root.stat p true []).ret ==ℤ dwarfs_s_link_outside
        then passed (root.stat p true []).lnk
        else answered (fails dwarfs_io_error erofs)
  ]

  unfoldable pub tebako_unlink : Option Bytes → Answer ℤ Bytes
  tebako_unlink none = answered (fails dwarfs_io_error enoent)
  tebako_unlink (some path) = elim (to_tebako_path cwd path) [
    | none ↦ passed path
    | some p ↦
        if (root.stat p true []).ret ==ℤ dwarfs_s_link_outside
        then passed (root.stat p true []).lnk
        else answered (fails dwarfs_io_error erofs)
  ]

  -- The calls `stat` and `chdir` of the system, whose results the function goes on with.
  module _ (sys_stat : Bytes → Out (ℤ × Stat)) (sys_chdir : Bytes → Out ℤ) where
    unfoldable pub complete_stat : Answer (ℤ × Stat) Bytes → Out (ℤ × Stat)
    complete_stat (answered out) = out
    complete_stat (passed path) = sys_stat path

    -- tebako_set_cwd does not fail.
    unfoldable pub tebako_chdir : Option Bytes → Cwd × Out ℤ
    tebako_chdir none = (cwd, fails dwarfs_io_error enoent)
    tebako_chdir (some path) = elim (to_tebako_path cwd path) [
      | none ↦
          if (sys_chdir path).value ==ℤ pos 0
          then ((tebako_set_cwd cwd none).0, sys_chdir path)
          else (cwd, sys_chdir path)
      | some p ↦
          let s = complete_stat (tebako_stat (some p)) in
          if s.value.0 ==ℤ pos 0
          then (if is_dir s.value.1.st_mode
              then ((tebako_set_cwd cwd (some p)).0, returns (pos 0))
              else (cwd, fails dwarfs_io_error enotdir))
          else (cwd, record { value = s.value.0; errno = s.errno })
    ]

-- `has_buf` tells whether `buf` is given. The result is what the buffer holds, in front of its zero
-- byte, or `none` for a null pointer. Allocation succeeds.
unfoldable pub tebako_getcwd : Cwd → Bool → ℕ → Answer (Option Bytes) (Unit {0})
tebako_getcwd cwd has_buf size =
    let text = tebako_get_cwd cwd in
    if length text == 0
    then passed tt
    else if has_buf
    then (if size == 0
        then answered (fails none einval)
        else if ltb (size - 1) (length text)
        then answered (fails none erange)
        else answered (returns (some text)))
    else if size == 0
    then answered (returns (some text))
    else if ltb (size - 1) (length text)
    then answered (fails none erange)
    else answered (returns (some text))
