-- ===== src/Memfs.antt =====
-- src/tebako-memfs.cpp and include/tebako-memfs.h: one mounted image.
pub mod State
pub mod Options
pub mod Guarded
pub mod Inode
pub mod Stored
pub mod Across
pub mod Find
pub mod Links
pub mod Walk
pub mod Samples
mod Tests
