-- ===== src/Fd.antt =====
-- src/tebako-fd.cpp and include/tebako-fd.h: the table of open files.
pub mod State
pub mod Seek
pub mod SeekLaws
pub mod Open
pub mod Read
pub mod Contents
pub mod Vectors
pub mod Shared
pub mod Descriptors
pub mod OpenLaws
mod Tests
