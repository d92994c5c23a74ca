-- ===== src/FileSys.antt =====
-- The file system of proj1/src/filesys, on the block device of devices/block.c.
pub mod Bytes
pub mod Block
pub mod Inode
pub mod Store
pub mod FreeMap
pub mod Inodes
pub mod Files
pub mod Directory
pub mod Calls
mod Tests
mod Mounted
