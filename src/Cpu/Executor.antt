-- ===== src/Cpu/Executor.antt =====
-- src/bin/rafi-emu/cpu/Executor.h and .cpp.
pub mod Machine
pub mod Steps
pub mod MemorySteps
pub mod Operands
pub mod Integer
pub mod Keeps
pub mod WellFormed
pub mod Reads
pub mod Multiply
pub mod Atomic
pub mod Compressed
pub mod Float
pub mod Check
pub mod Run
pub mod Preserves
pub mod Stable
