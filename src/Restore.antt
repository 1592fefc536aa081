-- ===== src/Restore.antt =====
-- cmd_restore.c: a dump(8) tape is read into a new image.
--
-- The options, the choice of the target's size, the opening of the files and the messages are left
-- out.
pub mod Tape
pub mod Blocks
pub mod Run
pub mod Ends
pub mod Total
pub mod Heads
pub mod Flags
pub mod Headers
pub mod Follow
pub mod Inodes
pub mod Form
pub mod Passes
pub mod Last
pub mod Steps
pub mod Whole
pub mod OfDump
