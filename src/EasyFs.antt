-- ===== src/EasyFs.antt =====
-- The file system: src/easy-fs/src.
pub mod Disk
pub mod BlockCache
pub mod Bitmap
pub mod Layout
pub mod Resize
pub mod Transfer
pub mod Efs
pub mod Vfs
