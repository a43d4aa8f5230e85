-- ===== src/Cpu.antt =====
-- src/bin/rafi-emu/cpu: the processor.
pub mod Trap
pub mod Action
pub mod Csr
pub mod MemoryAccessUnit
pub mod TrapProcessor
pub mod InterruptController
pub mod AtomicManager
pub mod IntRegFile
pub mod FpRegFile
pub mod Executor
pub mod Processor
