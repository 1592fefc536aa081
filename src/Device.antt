-- ===== src/Device.antt =====
-- The disk geometry tables of device.c, the user's additions, and the selection of a partition.
pub mod Table
pub mod Config
pub mod Select
pub mod Lookup
pub mod Sound
