-- ===== src/Filesystem.antt =====
-- filesystem.c: a table of files and directories on a disk of 512-byte sectors.
pub mod Disk
pub mod Table
pub mod Space
pub mod Paths
pub mod Directories
pub mod Operations
mod Examples
