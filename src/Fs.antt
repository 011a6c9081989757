-- ===== src/Fs.antt =====
-- xv6-public/fs.c.
pub mod Path
pub mod Bitmap
pub mod Inode
pub mod Icache
pub mod Dir
