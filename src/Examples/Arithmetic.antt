-- ===== src/Examples/Arithmetic.antt =====
-- Instructions of the executor (src/bin/rafi-emu/cpu/Executor.cpp) at concrete inputs.
use rafi_1st.Cpu.IntRegFile.{initial_int_reg_file, read_int32, read_int64, write_int32, write_int64}
use rafi_1st.Cpu.IntRegFile.RoundTrip.{read_int-write_int}
use rafi_1st.Util.{int32_to_uint64}
use rafi_1st.Word.{wrap_add}
use rafi_1st.Cpu.Executor.Integer.{alu_imm64}
use rafi_1st.Cpu.Executor.Compressed.{c_alu_imm64}
use rafi_1st.Cpu.Executor.Compressed.WordAdd.{c_addiw-addiw}
use rafi_1st.Base.{◌-◌, ◌≤◌, ◌⊎◌, ◌+◌, ◌*◌, ◌/◌, ◌%◌, ◌>>=◌, ◌^◌, ◌≡◌, refl, arith, ok}
use rafi_1st.BitField.{get_member}
use rafi_1st.RvTypes.{rv64}
use rafi_1st.Fp.Format.{fp32, fraction_msb, get_exponent, get_fraction, get_sign, max_exponent}
use rafi_1st.Fp.Api.{convert_to_rv_fp_class}
use rafi_1st.Fp.Classes.{class_bit, convert_to_rv_fp_class_lem}
use rafi_1st.Decoder.{decode_uint32}
use rafi_1st.Decoder.Ops
use rafi_1st.Decoder.Ops.{
  Op, add, addiw, c_add, c_addiw, div, divu, divw, operand_cr, operand_r, rem, remu, rv64a, rv64c,
  rv64i, sc_d, sc_w,
}
use rafi_1st.Decoder.Range.{Decodes}
use rafi_1st.Decoder.Total.{decode_uint32-Decodes}
use rafi_1st.Cpu.Executor.Machine.{Machine}
use rafi_1st.Cpu.Executor.Run.{process_op}
use rafi_1st.Cpu.Executor.Atomic.{process_rv64a}
use rafi_1st.Cpu.Executor.Atomic.Reservation.{IsUnreserved, failed, process_rv64a-store_conditional}
use rafi_1st.Cpu.Executor.Compressed.Expansion.{of_add, of_registers, process_op-Expansion}
use rafi_1st.Cpu.Executor.Multiply.{multiply32, multiply64, sources_of}
use rafi_1st.Cpu.Executor.Multiply.Division.{
  IsWordQuotient, multiply32-IsDivided, multiply64-IsDivided, divw-IsWordQuotient,
}
use rafi_1st.Word.Division.{IsDivided, IsDividedUnsigned}
use rafi_1st.Examples.Board.{board, start, ends_in, start-IsWellFormed}

multiply32-IsDivided_example :
    IsDivided 32
      (2 ^ 31)
      7
      (multiply32 div (2 ^ 31) 7 (2 ^ 31) 7)
      (multiply32 rem (2 ^ 31) 7 (2 ^ 31) 7)
    × IsDividedUnsigned 32
        (2 ^ 31)
        7
        (multiply32 divu (2 ^ 31) 7 (2 ^ 31) 7)
        (multiply32 remu (2 ^ 31) 7 (2 ^ 31) 7)
multiply32-IsDivided_example = multiply32-IsDivided (2 ^ 31) 7 (omega arith) (omega arith)

multiply64-IsDivided_example :
    IsDivided 64
      (2 ^ 64 - 6)
      2
      (multiply64 board.multiply div (sources_of 0 0 0 0 (2 ^ 64 - 6) 2 (2 ^ 64 - 6) 2))
      (multiply64 board.multiply rem (sources_of 0 0 0 0 (2 ^ 64 - 6) 2 (2 ^ 64 - 6) 2))
    × IsDividedUnsigned 64
        (2 ^ 64 - 6)
        2
        (multiply64 board.multiply divu (sources_of 0 0 0 0 (2 ^ 64 - 6) 2 (2 ^ 64 - 6) 2))
        (multiply64 board.multiply remu (sources_of 0 0 0 0 (2 ^ 64 - 6) 2 (2 ^ 64 - 6) 2))
multiply64-IsDivided_example =
    multiply64-IsDivided board.multiply (2 ^ 64 - 6) 2 0 0 0 0 (omega arith) (omega arith)

divw-IsWordQuotient_example : IsWordQuotient (2 ^ 64 - 6) 2 (
    multiply64 board.multiply divw
      (sources_of (2 ^ 32 - 6) 2 (2 ^ 32 - 6) 2 (2 ^ 64 - 6) 2 (2 ^ 64 - 6) 2))
divw-IsWordQuotient_example = divw-IsWordQuotient board.multiply (2 ^ 64 - 6) 2

decode_uint32-Decodes_example : Decodes (decode_uint32 rv64 0x00500093)
decode_uint32-Decodes_example = decode_uint32-Decodes rv64 0x00500093

-- 1.0f is a positive normal number.
convert_to_rv_fp_class_lem_example :
    convert_to_rv_fp_class fp32 0x3f800000
    ≡ 2
      ^ class_bit
          (max_exponent fp32)
          (get_sign fp32 0x3f800000)
          (get_exponent fp32 0x3f800000)
          (get_fraction fp32 0x3f800000)
          (get_member 0x3f800000 (fraction_msb fp32))
convert_to_rv_fp_class_lem_example = convert_to_rv_fp_class_lem fp32 0x3f800000

process_op-Expansion_example :
    process_op board (Ops.op rv64c c_add (operand_cr 5 5 6)) 0x1000 start.machine
    ≡ process_op board (Ops.op rv64i add (operand_r 5 5 6 0 0)) 0x1000 start.machine
process_op-Expansion_example =
    process_op-Expansion board 0x1000 start.machine
      (of_registers of_add 5 5 6 0 0 (omega arith) (omega arith)) start-IsWellFormed

-- Two store conditionals
abbrev store_conditional : Op
store_conditional = Ops.op rv64a sc_d (operand_r 5 6 7 0 0)

abbrev after_first : Machine (Unit {0})
after_first = ends_in start.machine (process_rv64a board store_conditional start.machine)

first_returns : process_rv64a board store_conditional start.machine ≡ ok (tt, after_first)
unfolding process_rv64a rafi_1st.Cpu.Executor.Atomic.process_rv64a_store64
    rafi_1st.Cpu.Executor.Machine.◌>>=◌ rafi_1st.Cpu.Executor.Operands.as_r
    rafi_1st.Cpu.Executor.Steps.get_uint64 rafi_1st.Cpu.IntRegFile.read_uint64
    rafi_1st.Cpu.Executor.Machine.get_value rafi_1st.Cpu.Executor.Steps.put_uint64
    rafi_1st.Cpu.IntRegFile.write_uint64 rafi_1st.Cpu.Executor.Steps.cancel_reservation
first_returns = refl

process_rv64a-store_conditional_example :
    (process_rv64a board (Ops.op rv64a sc_d (operand_r 8 6 7 0 0)) after_first
      ≡ ok (tt, failed after_first 8))
    × (process_rv64a board (Ops.op rv64a sc_w (operand_r 8 6 7 0 0)) after_first
        ≡ ok (tt, failed after_first 8))
    × IsUnreserved (failed after_first 8)
process_rv64a-store_conditional_example =
    process_rv64a-store_conditional board store_conditional start.machine after_first tt 8 6 7 0 0
      refl first_returns (omega arith) (omega arith) (omega arith)

read_int-write_int_example :
    ((write_int64 initial_int_reg_file 5 7 >>= λ r. read_int64 r 5) ≡ ok (7 % 2 ^ 64))
    × ((write_int32 initial_int_reg_file 5 7 >>= λ r. read_int64 r 5)
        ≡ ok (0 / 2 ^ 32 % 2 ^ 32 * 2 ^ 32 + 7 % 2 ^ 32))
    × ((write_int64 initial_int_reg_file 5 7 >>= λ r. read_int32 r 5) ≡ ok (7 % 2 ^ 32))
read_int-write_int_example =
    read_int-write_int initial_int_reg_file 5 5 7 (omega arith) (omega arith)

-- The most negative word and -1
c_addiw-addiw_example :
    (c_alu_imm64 c_addiw 0 0 (2 ^ 31) (2 ^ 64 - 1)
      ≡ alu_imm64 addiw 0 (2 ^ 64 - 1) 0 0 (2 ^ 31) ((2 ^ 64 - 1) % 2 ^ 32))
    ⊎ ((2 ^ 32 ≤ wrap_add 64 (int32_to_uint64 (2 ^ 31)) (2 ^ 64 - 1))
        × (wrap_add 64 (int32_to_uint64 (2 ^ 31)) (2 ^ 64 - 1) / 2 ^ 31 % 2 ≡ 0)
        × (c_alu_imm64 c_addiw 0 0 (2 ^ 31) (2 ^ 64 - 1)
            ≡ ok (wrap_add 64 (int32_to_uint64 (2 ^ 31)) (2 ^ 64 - 1)))
        × (alu_imm64 addiw 0 (2 ^ 64 - 1) 0 0 (2 ^ 31) ((2 ^ 64 - 1) % 2 ^ 32)
            ≡ ok (wrap_add 64 (int32_to_uint64 (2 ^ 31)) (2 ^ 64 - 1) % 2 ^ 32)))
c_addiw-addiw_example = c_addiw-addiw (2 ^ 31) (2 ^ 64 - 1) (omega arith) 0 0 0
