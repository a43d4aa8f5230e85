-- ===== src/Cpu/Executor/Preserves.antt =====
-- Every execution of src/bin/rafi-emu/cpu/Executor.cpp keeps what the basic steps keep.
pub mod Rv32
pub mod Rv64
pub mod MultiplyAtomic
pub mod Compressed32
pub mod Compressed64
pub mod Float
pub mod Double
pub mod Check
pub mod CheckCompressed
pub mod Run
