-- ===== src/Lib.antt =====
-- A model of the RISC-V emulator rafi-emu, and what is proved of it.
--
-- The emulator executes instructions for RV32 and RV64 with machine, supervisor and user mode. A
-- processor (src/bin/rafi-emu/cpu) holds the control and status registers, a trap processor, an
-- interrupt controller and a memory access unit; they share the one `Csr` object, and the unit
-- reaches memories and devices over the bus (src/lib/emu).
--
-- The files, by the part of the program they model:
--   BitField, Util       include/rafi/common/BitField.h and Util.h: a value of `BaseInteger` is a
--                        number below 2 ^ 32 or 2 ^ 64, with the wrap-around written out
--   RvTypes, RvCsr       include/rafi/common/RvTypes.h and RvCsr.h: the enumerations, the addresses
--                        and the fields of the registers, one module per register
--   PageTable            include/rafi/common/RvPageTable.h: entries and addresses of Sv32, Sv39, Sv48
--   Trace                include/rafi/trace/EventTypes.h: the events of a cycle
--   Emu                  src/lib/emu: Memory is Ram.cpp and Rom.cpp, Bus is Bus.cpp, Interface is what
--                        a processor sees of the bus
--   Cpu.Csr              Csr.cpp: the record `Csr` has the fields of the class; Read, Write and Access
--                        are ReadUInt64, WriteUInt64 and CheckTrap with what they call; Permission
--                        and Counters are the rules of access, SstatusBits what sstatus shows
--   Cpu.Trap, Cpu.TrapProcessor   Trap.cpp and TrapProcessor.cpp
--   Cpu.InterruptController       InterruptController.cpp
--   Cpu.MemoryAccessUnit          MemoryAccessUnit.cpp and .h: Check and Translate have one definition
--                        per level of a table, Access the loads, stores and fetches. Walk is their
--                        one form for any number of levels, Walk.Reference the walk on the bits of
--                        the entries that both are compared with, Permission the rules for a page
--   Cpu.Action           code that uses the bus and can return a trap: `std::optional<Trap>` with
--                        RAFI_RETURN_IF_TRAP
--   Decoder              src/lib/common/Decoder.cpp: one module per instruction class, the operand
--                        formats, and the decoded operation of include/rafi/common/OpDeprecated.h
--   Word                 the operators of C++ on machine words; Division says what a quotient is
--   Fp                   src/lib/fp/FpApi.cpp and ScopedFpRound.cpp: the functions that the executor
--                        calls, by Format; SoftFloat is the interface of the library behind them
--   Cpu.IntRegFile, Cpu.FpRegFile, Cpu.AtomicManager   the files of these names
--   Cpu.Executor         Executor.cpp, one definition per method. Machine is the state and the monad,
--                        Steps and MemorySteps the calls of the parts; Integer, Multiply, Atomic,
--                        Compressed and Float are the instructions, Check the checks around them, Run
--                        PreCheckTrap and ProcessOp. Keeps, Stable and Preserves carry invariants of
--                        the basic steps over to all of it; WellFormed is one such invariant
--   Cpu.Processor        Processor.cpp: Fetch and ProcessCycle; Reach is the states that cycles lead
--                        to, Precise what a refused instruction leaves alone, Interrupt when a cycle takes one
--   Base                 tests on numbers, results, bits
--   Examples             runs at concrete inputs
--
-- Conventions. A C++ exception is a `Fault` in `Result`; a failed `assert` is one too, and so is the
-- use of a variable that was never set. An object that is passed by pointer is passed and returned
-- by value; no two pointers of the parts modelled reach the same object but the shared `Csr`, which
-- only one part at a time changes. The models have no fuel: the loops of the source run over the
-- registered memories and over the levels of a table, and both are recursion on their data.
--
-- Signed overflow wraps around, as the compilers in use make it; a shift by the width or more and a
-- division by zero are the fault `undefined`, std::get of another alternative `bad_variant_access`, and
-- Executor::Error `exited`.
--
-- Parameters: the functions of SoftFloat, the products of 128 bits of Boost, a device of the bus
-- (`Io`), the bus that the memory access unit uses (`Bus`), and the answer of the timer's interrupt
-- source.
--
-- Not modelled: messages to the terminal; LoadFile, which reads a file of the host; the copies of the
-- state for the trace and PrintStatus; the devices of src/bin/rafi-emu/io; the gdb server; the trace
-- files and their tools; the second decoder in src/lib/op, which prints; the set-up and
-- the run loop of System.cpp and Emulator.cpp; the hardware description in
-- src/hw.
pub mod Base
pub mod BitField
pub mod Cpu
pub mod Decoder
pub mod Emu
pub mod Examples
pub mod Fp
pub mod PageTable
pub mod RvCsr
pub mod RvTypes
pub mod Trace
pub mod Util
pub mod Word
