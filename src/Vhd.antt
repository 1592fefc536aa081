-- ===== src/Vhd.antt =====
-- cmd_vhd.c: fixed-size VHD containers.
--
-- The options, the messages and the opening of the files are left out.
pub mod Geometry
pub mod Words
pub mod Footer
pub mod Wrap
