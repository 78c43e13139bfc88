-- ===== src/Memory.antt =====
-- The buffers behind the bus and the map of the address space.
pub mod Bytes
pub mod Ram
pub mod Bios
pub mod Map
