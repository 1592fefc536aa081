-- ===== src/Rw.antt =====
-- The file-mutation engine, s5fs_rw.c.
pub mod Map
pub mod Dir
pub mod Ops
pub mod Attr
pub mod Ancestry
pub mod Paths
pub mod Slots
pub mod Empty
pub mod Chmod
pub mod FreeInode
pub mod Ialloc
pub mod Copy
