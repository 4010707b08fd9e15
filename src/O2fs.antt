-- ===== src/O2fs.antt =====
-- The file system o2fs: sys/fs/o2fs/o2fs.c. The bitmap of used blocks and the transfers of a file's
-- bytes are children, and so is the lookup in a directory.
pub mod Bitmap
pub mod File
pub mod Write
pub mod Directory
mod Tests
