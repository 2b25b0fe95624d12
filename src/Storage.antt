-- ===== src/Storage.antt =====
-- src/fs/storage/storage.c, include/fs/storage.h and include/drivers/block_device.h: the file
-- system, from the bytes of a sector up to the calls of its clients.
pub mod State
pub mod Run
pub mod Bytes
pub mod Path
pub mod Disk
pub mod Bitmap
pub mod Inode
pub mod Sync
pub mod Files
pub mod Remove
pub mod Rename
pub mod Content
pub mod Info
pub mod Check
pub mod Tests
