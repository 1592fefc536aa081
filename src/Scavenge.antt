-- ===== src/Scavenge.antt =====
-- cmd_scavenge.c: remnants of deleted files in the free space.
--
-- The options and the printed report are left out; the functions return what is printed.
pub mod Used
pub mod Names
pub mod Scan
pub mod Run
pub mod Copy
pub mod Kinds
