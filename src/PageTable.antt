-- ===== src/PageTable.antt =====
-- include/rafi/common/RvPageTable.h: page table entries and addresses of the three schemes.
pub mod Entry
pub mod Sv32
pub mod Sv39
pub mod Sv48
pub mod Layout
