-- ===== src/Examples.antt =====
-- The theorems at concrete volumes.
pub mod Disk
pub mod Tree
pub mod Fsck
pub mod Device
pub mod Vhd
pub mod Tapes
pub mod DumpRestore
pub mod Maps
pub mod Scavenge
