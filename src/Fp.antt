-- ===== src/Fp.antt =====
-- src/lib/fp: the RISC-V view of floating point, over the SoftFloat library.
pub mod Format
pub mod SoftFloat
pub mod Api
pub mod Round
pub mod Classes
