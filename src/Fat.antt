-- ===== src/Fat.antt =====
-- lab4/esqueleto: the FAT32 file system served through FUSE.
pub mod Os
pub mod Table
pub mod Io
pub mod Time
pub mod Dentry
pub mod File
pub mod Disk
pub mod Volume
pub mod Tree
pub mod Hierarchy
pub mod FsTree
pub mod PathOrder
pub mod Filename
pub mod Directory
pub mod Libc
pub mod Handle
pub mod Fuse
pub mod Mount
pub mod Sample
