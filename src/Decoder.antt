-- ===== src/Decoder.antt =====
-- src/lib/common/Decoder.cpp: the decoder of RV32 and RV64. `Pick` asserts the range of its
-- constant arguments, which holds at every call.
pub mod Ops
pub mod Fields
pub mod Operands
pub mod CompressedOperands
pub mod ImmediateOps
pub mod IntegerOps
pub mod MultiplyOps
pub mod AtomicOps
pub mod FloatOps
pub mod DoubleOps
pub mod CompressedOps
pub mod Range
pub mod Total
pub mod Register
pub mod Immediates
use rafi_1st.Base.{ℕ, ◌%◌, ◌^◌, Bool, not, ◌&&◌, ◌||◌, ◌==◌, bit_and, if◌then◌else◌, Result}
use rafi_1st.RvTypes.{SupportedXlen}
use rafi_1st.Decoder.Fields.{pick}
use rafi_1st.Decoder.Ops.{Op}
use rafi_1st.Decoder.IntegerOps.{decode_i}
use rafi_1st.Decoder.MultiplyOps.{decode_m}
use rafi_1st.Decoder.AtomicOps.{decode_a}
use rafi_1st.Decoder.FloatOps.{decode_f}
use rafi_1st.Decoder.DoubleOps.{decode_d}
use rafi_1st.Decoder.CompressedOps.{decode_c}

-- IsCompressedInstruction
abbrev pub is_compressed_instruction : ℕ → Bool
is_compressed_instruction insn = not (bit_and insn 3 == 3)

-- Decode(uint16_t)
unfoldable pub decode_uint16 : SupportedXlen → ℕ → Result Op
decode_uint16 xlen insn = decode_c xlen insn

-- The conditions of Decode(uint32_t), in their order
unfoldable pub is_m : ℕ → Bool
is_m insn =
    let opcode = pick insn 0 7 in
    let funct7 = pick insn 25 7 in (opcode == 51 && funct7 == 1) || (opcode == 59 && funct7 == 1)

unfoldable pub is_a : ℕ → Bool
is_a insn =
    let opcode = pick insn 0 7 in
    let funct3 = pick insn 12 3 in (opcode == 47 && funct3 == 2) || (opcode == 47 && funct3 == 3)

unfoldable pub is_f : ℕ → Bool
is_f insn =
    let opcode = pick insn 0 7 in
    let funct3 = pick insn 12 3 in
    let funct7 = pick insn 25 7 in
    let funct2 = pick insn 25 2 in
    (opcode == 7 && funct3 == 2)
    || (opcode == 39 && funct3 == 2)
    || (opcode == 67 && funct2 == 0)
    || (opcode == 71 && funct2 == 0)
    || (opcode == 75 && funct2 == 0)
    || (opcode == 79 && funct2 == 0)
    || (opcode == 83 && funct2 == 0 && not (funct7 == 32))

unfoldable pub is_d : ℕ → Bool
is_d insn =
    let opcode = pick insn 0 7 in
    let funct3 = pick insn 12 3 in
    let funct7 = pick insn 25 7 in
    let funct2 = pick insn 25 2 in
    (opcode == 7 && funct3 == 3)
    || (opcode == 39 && funct3 == 3)
    || (opcode == 67 && funct2 == 1)
    || (opcode == 71 && funct2 == 1)
    || (opcode == 75 && funct2 == 1)
    || (opcode == 79 && funct2 == 1)
    || (opcode == 83 && funct2 == 1)
    || (opcode == 83 && funct7 == 32)

-- Decode(uint32_t)
unfoldable pub decode_uint32 : SupportedXlen → ℕ → Result Op
decode_uint32 xlen insn =
    if is_compressed_instruction insn
    then decode_c xlen (insn % 2 ^ 16)
    else if is_m insn
    then decode_m xlen insn
    else if is_a insn
    then decode_a xlen insn
    else if is_f insn
    then decode_f xlen insn
    else if is_d insn
    then decode_d xlen insn
    else decode_i xlen insn
