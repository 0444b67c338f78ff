-- ===== src/Windows.antt =====
-- What the sources do on Windows instead of their POSIX form, where they hold the code for it: the error
-- macro of include/tebako-common.h, the test for a path of memfs in src/tebako-io-helpers.cpp, and the
-- two forms of `struct stat` of include/tebako-io-rb-w32.h.
pub mod Errors
pub mod MountPoint
pub mod Attributes
mod Tests
