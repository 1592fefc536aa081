-- ===== src/Dump.antt =====
-- cmd_dump.c: a dump(8) tape is written from an image.
--
-- The options, the messages and the counts by kind that cmd_dump prints are left out, and so is the
-- exit on a write that fails.
pub mod Record
pub mod Inodes
pub mod Run
pub mod Checksum
pub mod Flat
pub mod Parts
pub mod Leaves
