-- ===== src/Cpu/Executor/Float.antt =====
-- src/bin/rafi-emu/cpu/Executor.cpp: what the floating-point instructions share, and their loads
-- and stores. The host rounding mode that ScopedFpRound sets is read by no part of the model.
pub mod Single
pub mod Double
use rafi_1st.Cpu.Executor.Steps.{
  get_csr, get_fp32, get_fp64, get_uint32, get_uint64, put_fp32, put_fp64, put_fp_csr, put_status,
}
use rafi_1st.Cpu.Executor.Machine.{Environment, Execution, get_value, lift, pure, ◌>>=◌, ◌>>◌}
use rafi_1st.Base.{Bool, if◌then◌else◌, not, ℕ, ◌==◌}
use rafi_1st.Cpu.Executor.MemorySteps.{load32, load64, store32, store64}
use rafi_1st.Word.{wrap_add}
use rafi_1st.Cpu.Executor.Operands.{as_i, as_s}
use rafi_1st.Cpu.Csr.{read_status}
use rafi_1st.Decoder.Ops.{Op}
use rafi_1st.Fp.Round.{convert_to_host_rounding_mode}
use rafi_1st.BitField.{get_member, set_member}
use rafi_1st.RvCsr.Status
use rafi_1st.RvCsr.Fcsr

module _ {B : Type 0} where
  -- IsFpEnabled, NotifyFpDirty and UpdateFpCsr
  unfoldable pub is_fp_enabled : Execution B Bool
  is_fp_enabled = get_csr (λ c. not (get_member (read_status c) Status.fs == 0))

  unfoldable pub notify_fp_dirty : Execution B (Unit {0})
  notify_fp_dirty = do status ← get_csr read_status; put_status (set_member 64 status Status.fs 3)

  unfoldable pub update_fp_csr : Execution B (Unit {0})
  update_fp_csr = do
    fp_csr ← get_csr (λ c. c.fp_csr)
    flags ← get_value (λ m. m.float.exception_flags)
    put_fp_csr (set_member 32 fp_csr Fcsr.ae flags)

  -- The rounding mode of an instruction: 7 takes it from `fcsr`.
  unfoldable pub round_mode_of : ℕ → Execution B ℕ
  round_mode_of funct3 = get_csr (λ c. if funct3 == 7 then get_member c.fp_csr Fcsr.rm else funct3)

  -- fp::ScopedFpRound
  unfoldable pub scoped_fp_round : ℕ → Execution B (Unit {0})
  scoped_fp_round round_mode = do host ← lift (convert_to_host_rounding_mode round_mode); pure tt

  unfoldable pub process_rv32f_load : Environment B → Op → Execution B (Unit {0})
  process_rv32f_load e op = do
    o ← as_i op.operand
    base ← get_uint32 o.rs1
    value ← load32 e (wrap_add 64 base o.imm)
    notify_fp_dirty
    put_fp32 o.rd value

  unfoldable pub process_rv32f_store : Environment B → Op → Execution B (Unit {0})
  process_rv32f_store e op = do
    o ← as_s op.operand
    base ← get_uint32 o.rs1
    value ← get_fp32 o.rs2
    store32 e (wrap_add 64 base o.imm) value

  unfoldable pub process_rv32d_load : Environment B → Op → Execution B (Unit {0})
  process_rv32d_load e op = do
    o ← as_i op.operand
    base ← get_uint32 o.rs1
    value ← load64 e (wrap_add 64 base o.imm)
    notify_fp_dirty
    put_fp64 o.rd value

  unfoldable pub process_rv32d_store : Environment B → Op → Execution B (Unit {0})
  process_rv32d_store e op = do
    o ← as_s op.operand
    base ← get_uint32 o.rs1
    value ← get_fp64 o.rs2
    store64 e (wrap_add 64 base o.imm) value

  unfoldable pub process_rv64f_load : Environment B → Op → Execution B (Unit {0})
  process_rv64f_load e op = do
    o ← as_i op.operand
    base ← get_uint64 o.rs1
    value ← load32 e (wrap_add 64 base o.imm)
    notify_fp_dirty
    put_fp32 o.rd value

  unfoldable pub process_rv64f_store : Environment B → Op → Execution B (Unit {0})
  process_rv64f_store e op = do
    o ← as_s op.operand
    base ← get_uint64 o.rs1
    value ← get_fp32 o.rs2
    store32 e (wrap_add 64 base o.imm) value

  unfoldable pub process_rv64d_load : Environment B → Op → Execution B (Unit {0})
  process_rv64d_load e op = do
    o ← as_i op.operand
    base ← get_uint64 o.rs1
    value ← load64 e (wrap_add 64 base o.imm)
    notify_fp_dirty
    put_fp64 o.rd value

  unfoldable pub process_rv64d_store : Environment B → Op → Execution B (Unit {0})
  process_rv64d_store e op = do
    o ← as_s op.operand
    base ← get_uint64 o.rs1
    value ← get_fp64 o.rs2
    store64 e (wrap_add 64 base o.imm) value
