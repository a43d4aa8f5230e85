-- ===== src/Emu.antt =====
-- The library of memories and the bus: include/rafi/emu and src/lib/emu.
pub mod Interface
pub mod Memory
pub mod Bus
