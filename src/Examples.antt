-- ===== src/Examples.antt =====
-- Runs of the models and of the theorems at concrete inputs.
mod Registers
mod Traps
mod Memory
mod Instructions
mod Board
mod Arithmetic
mod Execution
