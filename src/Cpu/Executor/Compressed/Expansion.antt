-- ===== src/Cpu/Executor/Compressed/Expansion.antt =====
-- Compressed instructions of RV64C in src/bin/rafi-emu/cpu/Executor.cpp as the RV64I instructions
-- that they stand for.
use rafi_1st.Base.{ℕ, ◌%◌, ◌^◌, ◌<◌, ◌≡◌, ◌∙◌, refl, sym, ap, arith}
use native.Mathlib.Nat.{mod-eq_of_lt}
use rafi_1st.Decoder.Ops.{
  Op, OpCode, op, operand_r, operand_i, operand_cr, operand_ci, rv64c, rv64i, c_add, c_sub, c_xor,
  c_or, c_and, c_addw, c_subw, c_addi, c_andi, c_mv, add, sub, xor_, or_, and_, addw, subw, addi,
  andi,
}
use rafi_1st.Word.{wrap_add}
use rafi_1st.Cpu.IntRegFile.RoundTrip.{in_range}
use rafi_1st.Cpu.IntRegFile.{read_int32, read_int64, read_uint64}
use rafi_1st.Cpu.Executor.Machine.{Environment, Machine, ◌>>=◌, lift, gets}
use rafi_1st.Cpu.Executor.Operands.{as_cr, as_r, as_ci, as_i}
use rafi_1st.Cpu.Executor.Steps.{get_int32, get_int64, get_uint64, put_int64}
use rafi_1st.Cpu.Executor.Integer.Rv64.{
  process_rv64i, dispatch_rv64i, process_rv64i_alu, process_rv64i_alu_imm,
}
use rafi_1st.Cpu.Executor.Compressed.Rv64.{
  process_rv64c, dispatch_rv64c, process_rv64c_alu, process_rv64c_alu_imm,
}
use rafi_1st.Cpu.Executor.Run.{process_op, process_class}
use rafi_1st.Cpu.Executor.WellFormed.{IsWellFormed}

-- Operations on two registers, and on a register and an immediate
pub data RegisterCode : OpCode → OpCode → Type 0 where
  of_add : RegisterCode c_add add
  of_sub : RegisterCode c_sub sub
  of_xor : RegisterCode c_xor xor_
  of_or : RegisterCode c_or or_
  of_and : RegisterCode c_and and_
  of_addw : RegisterCode c_addw addw
  of_subw : RegisterCode c_subw subw

pub data ImmediateCode : OpCode → OpCode → Type 0 where
  of_addi : ImmediateCode c_addi addi
  of_andi : ImmediateCode c_andi andi

-- A compressed instruction and the instruction it stands for; c.mv adds the zero register.
pub data Expansion : Op → Op → Type 0 where
  of_registers :
      {c b : OpCode}
      → RegisterCode c b
      → (rd rs1 rs2 funct3 funct7 : ℕ) → rs1 < 32
      → rs2 < 32
      → Expansion
          (op rv64c c (operand_cr rd rs1 rs2))
          (op rv64i b (operand_r rd rs1 rs2 funct3 funct7))
  of_immediate :
      {c b : OpCode}
      → ImmediateCode c b
      → (imm rd rs1 funct3 : ℕ) → rs1 < 32
      → Expansion (op rv64c c (operand_ci imm rd rs1)) (op rv64i b (operand_i imm rd rs1 funct3))
  of_move :
      (rd rs1 rs2 funct3 funct7 : ℕ)
      → rs1 < 32
      → rs2 < 32
      → Expansion
          (op rv64c c_mv (operand_cr rd rs1 rs2))
          (op rv64i add (operand_r rd 0 rs2 funct3 funct7))

module _ {B : Type 0} (e : Environment B) (pc : ℕ) (m : Machine B) where
  registers_lem :
      {c b : OpCode}
      → RegisterCode c b
      → (rd rs1 rs2 funct3 funct7 : ℕ) → rs1 < 32
      → rs2 < 32
      → process_op e (op rv64c c (operand_cr rd rs1 rs2)) pc m
        ≡ process_op e (op rv64i b (operand_r rd rs1 rs2 funct3 funct7)) pc m
  unfolding process_op process_class process_rv64c dispatch_rv64c process_rv64c_alu process_rv64i
      dispatch_rv64i process_rv64i_alu as_cr as_r get_int32 get_int64 get_uint64 read_int32
      read_int64 read_uint64 gets lift ◌>>=◌
  registers_lem of_add rd rs1 rs2 funct3 funct7 h1 h2 =
      simp ((in_range rs1 h1).0, (in_range rs1 h1).1, (in_range rs2 h2).0, (in_range rs2 h2).1) refl
  registers_lem _ rd rs1 rs2 funct3 funct7 h1 h2 =
      simp ((in_range rs1 h1).0, (in_range rs1 h1).1, (in_range rs2 h2).0, (in_range rs2 h2).1) refl

  immediate_lem :
      {c b : OpCode}
      → ImmediateCode c b
      → (imm rd rs1 funct3 : ℕ) → rs1 < 32
      → process_op e (op rv64c c (operand_ci imm rd rs1)) pc m
        ≡ process_op e (op rv64i b (operand_i imm rd rs1 funct3)) pc m
  unfolding process_op process_class process_rv64c dispatch_rv64c process_rv64c_alu_imm
      process_rv64i dispatch_rv64i process_rv64i_alu_imm as_ci as_i get_int32 get_int64 get_uint64
      read_int32 read_int64 read_uint64 gets lift ◌>>=◌
  immediate_lem of_addi imm rd rs1 funct3 h1 = simp ((in_range rs1 h1).0, (in_range rs1 h1).1) refl
  immediate_lem of_andi imm rd rs1 funct3 h1 = simp ((in_range rs1 h1).0, (in_range rs1 h1).1) refl

  move_lem :
      (rd rs1 rs2 funct3 funct7 : ℕ)
      → rs1 < 32
      → rs2 < 32
      → IsWellFormed m
      → process_op e (op rv64c c_mv (operand_cr rd rs1 rs2)) pc m
        ≡ process_op e (op rv64i add (operand_r rd 0 rs2 funct3 funct7)) pc m
  unfolding process_op process_class process_rv64c dispatch_rv64c process_rv64c_alu process_rv64i
      dispatch_rv64i process_rv64i_alu as_cr as_r get_int32 get_int64 get_uint64 read_int32
      read_int64 read_uint64 gets lift ◌>>=◌
  move_lem rd rs1 rs2 funct3 funct7 h1 h2 well =
      let zero : m.int_regs.entries 0 ≡ 0 = well.0.zero_register in
      let word : m.int_regs.entries rs2 % 2 ^ 64 ≡ m.int_regs.entries rs2 =
        mod-eq_of_lt (well.0.words rs2) in
      let sum : m.int_regs.entries rs2
          ≡ wrap_add 64 (m.int_regs.entries 0) (m.int_regs.entries rs2) =
        sym word ∙ ap (λ (t : ℕ). t % 2 ^ 64) (omega (arith, zero)) in
      simp ((in_range rs1 h1).0, (in_range rs1 h1).1, (in_range rs2 h2).0, (in_range rs2 h2).1)
        (ap (λ (v : ℕ). put_int64 rd v m) sum)

-- Executing c.add, c.sub, c.xor, c.or, c.and, c.addw, c.subw, c.addi, c.andi or c.mv, from
-- registers that hold words and an x0 of 0, has the result of the RV64I instruction that it stands
-- for: the same state, or the same fault.
pub process_op-Expansion :
    {B : Type 0} (e : Environment B) (pc : ℕ) (m : Machine B) {compressed full : Op}
    → Expansion compressed full
    → IsWellFormed m
    → process_op e compressed pc m ≡ process_op e full pc m
process_op-Expansion e pc m (of_registers codes rd rs1 rs2 funct3 funct7 h1 h2) well =
    registers_lem e pc m codes rd rs1 rs2 funct3 funct7 h1 h2
process_op-Expansion e pc m (of_immediate codes imm rd rs1 funct3 h1) well =
    immediate_lem e pc m codes imm rd rs1 funct3 h1
process_op-Expansion e pc m (of_move rd rs1 rs2 funct3 funct7 h1 h2) well =
    move_lem e pc m rd rs1 rs2 funct3 funct7 h1 h2 well
