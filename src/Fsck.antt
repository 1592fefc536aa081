-- ===== src/Fsck.antt =====
-- The checker and its repairs, cmd_fsck.c.
pub mod Check
pub mod Walk
pub mod Salvage
pub mod Ends
pub mod Agrees
pub mod Partition
pub mod Clean
pub mod Rebuild
pub mod Repair
pub mod Reload
pub mod Dirs
pub mod Links
pub mod Run
pub mod Reach
pub mod ReadOnly
pub mod Total
pub mod Clri
