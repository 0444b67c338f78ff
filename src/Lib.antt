-- ===== src/Lib.antt =====
-- libdwarfs gives a program files out of DwarFS images that are linked into it or appended to it. A
-- path below /__tebako_memfs__ is answered from the images, every other path by the system. This
-- library models the C++ sources in their POSIX form, and what they hold for Windows, and states what the parts promise.
--
-- The parts, from the outside in:
--   Calls, FileIo, DirIo   the calls that stand in for those of the system: src/file-ctl.cpp and
--                          src/dir-ctl.cpp, src/file-io.cpp, src/dir-io.cpp. They ask Cwd whether a path
--                          is one of memfs, and the tables whether a descriptor or a DIR* is.
--   Cwd                    src/tebako-io-helpers.cpp: the current directory and to_tebako_path.
--   Paths                  std::filesystem::path on POSIX as the list of its elements.
--   Fd                     src/tebako-fd.cpp and include/tebako-fd.h: the table of descriptors, and
--                          (Fd.Shared) threads in it at the same time.
--   Dirent                 src/tebako-dirent.cpp and include/tebako-dirent.h: the table of directory
--                          streams, each with a cache of 50 entries.
--   Kfd                    src/tebako-kfd.cpp: the DIR* that the system gave.
--   IoRoot                 src/tebako-io-root.cpp: mounting and unmounting, and the dwarfs_* functions.
--   Memfs                  src/tebako-memfs.cpp and include/tebako-memfs.h: one image. Memfs.Inode has the
--                          operations on an inode, Memfs.Find the search for a path.
--   MemfsTable, MountTable src/tebako-memfs-table.cpp, src/tebako-mount-table.cpp: the mounted images and
--                          what is mounted where.
--   Search                 the searches by path of src/tebako-io-root.cpp, over all images (Search.Across, on
--                          the walk of Memfs.Across; Search.Mounted from the mount on; Search.Links with symbolic
--                          links, on Memfs.Links), and with the way
--                          back to tebako_stat that a link within memfs takes.
--   Dl                     src/dl-ctl.cpp: the files that are copied out of memfs for the system's loader.
--   Mfs                    src/tebako-mfs.cpp: the pages of an image in memory.
--   Cmdline                src/tebako-cmdline.cpp: the options, the arguments for the program, the mount
--                          rules (Cmdline.Mounting) and the package (Cmdline.Package).
--   PackageDescriptor      src/tebako-package-descriptor.cpp: the binary form of a package's description.
--   Redirects              include/tebako-defines.h: the macros that write the calls of this library.
--   Windows                what the sources hold for Windows: the error macro and the mount point of
--                          include/tebako-common.h, and struct stat in include/tebako-io-rb-w32.h.
-- Process puts the calls that change the tables together: any sequence of them is a run of its steps.
-- Errno has the return codes of include/tebako-io-inner.h, and Result a result type for what throws.
--
-- Interfaces. Dwarfs.Filesystem is what the code calls of the dwarfs library, System what it calls of
-- the operating system for descriptors: both are parameters. Root is what the tables call of IoRoot, and
-- IoRoot.io_root fills it from the mounted images, with the searches of Search (Search.search_root); Fd.Contents.HasContent
-- and Dirent.Listed.HasEntries are what the statements on Fd and Dirent assume of it. A call that goes to the system is the value
-- `passed` with its arguments.
--
-- State and errors. A function takes the state it reads and gives the state it leaves. errno is the last
-- value written, or none. A call of a table holds the table's lock to its end and is one
-- step. The calls that change one descriptor or stream (read, readv, lseek, flock, readdir, seekdir) hold the lock
-- for readers, which lets other readers in: Fd.Shared has threads that read one descriptor at the same time. Allocation succeeds, and nothing throws but where a result says so.
--
-- Numbers. Sizes and unsigned values are natural numbers with their wrap-around written out, signed
-- values the integers of Prelude.Int. Negating the least off_t wraps around.
--
-- Fuel. Memfs.Find.find_loop counts the rounds of its loop, Dirent.Stream.scan_loop the calls of
-- readdir, Dl.copy the rounds of its loop, and `none` is fuel run out: a path without links and mount
-- points takes one round for each element and one to see its end, a directory one call for each entry and
-- one more, and a copy one round for each 16 KB and one more; a path with links takes one round for each
-- step of its resolution (Memfs.Links.steps) and one more. A search over all images (Search.dwarfs_stat)
-- has one fuel for the rounds and for the nesting of its calls. Links can lead in a circle, so that there
-- are searches that no fuel is enough for; search_root gives ENOENT for a search that its fuel does not end.
--
-- Not modelled: the functions of the dwarfs library, of folly and of the system, which are parameters;
-- allocation that fails; the log but that of the current directory (Cwd.Logged); the Windows forms of the
-- calls, which differ by the name of the system's call; and the declarations in include/ without a body.
pub mod Calls
pub mod Cmdline
pub mod Cwd
pub mod DirIo
pub mod Dirent
pub mod Dl
pub mod Dwarfs
pub mod Errno
pub mod Fd
pub mod FileIo
pub mod IoRoot
pub mod Kfd
pub mod Memfs
pub mod MemfsTable
pub mod Mfs
pub mod MountTable
pub mod PackageDescriptor
pub mod Paths
pub mod Prelude
pub mod Process
pub mod Redirects
pub mod Result
pub mod Root
pub mod Search
pub mod System
pub mod Windows
