-- ===== src/Cpu/Executor/Atomic.antt =====
-- src/bin/rafi-emu/cpu/Executor.cpp: ProcessRV32A and ProcessRV64A. LR reserves an address, and SC
-- stores only to a reserved one.
pub mod Reservation
use rafi_1st.Decoder.Ops.{
  Op, OpCode, amoadd_d, amoadd_w, amoand_d, amoand_w, amomax_d, amomax_w, amomaxu_d, amomaxu_w,
  amomin_d, amomin_w, amominu_d, amominu_w, amoor_d, amoor_w, amoswap_d, amoswap_w, amoxor_d,
  amoxor_w, lr_d, lr_w, sc_d, sc_w,
}
use rafi_1st.Cpu.Executor.Machine.{Environment, Execution, error, get_value, lift, ◌>>=◌, ◌>>◌}
use rafi_1st.Cpu.Executor.Steps.{
  cancel_reservation, get_uint32, get_uint64, put_int32, put_int64, put_uint32, put_uint64,
  reserve_address,
}
use rafi_1st.Base.{
  Result, bit_and, bit_or, bit_xor, exited, if◌then◌else◌, ltb, ok, throw, ℕ, ◌&&◌, ◌==◌,
}
use rafi_1st.Cpu.Executor.MemorySteps.{load32, load64, store32, store64}
use rafi_1st.Word.{signed_lt, wrap_add}
use rafi_1st.Decoder.Fields.{sign_extend}
use rafi_1st.Cpu.Executor.Operands.{as_r}

-- What an atomic operation of 32 bits stores
unfoldable pub amo_value32 : OpCode → ℕ → ℕ → Result ℕ
amo_value32 amoswap_w value src2 = ok src2
amo_value32 amoadd_w value src2 = ok (wrap_add 32 value src2)
amo_value32 amoxor_w value src2 = ok (bit_xor value src2)
amo_value32 amoand_w value src2 = ok (bit_and value src2)
amo_value32 amoor_w value src2 = ok (bit_or value src2)
amo_value32 amomax_w value src2 = ok (if signed_lt 32 value src2 then src2 else value)
amo_value32 amomin_w value src2 = ok (if signed_lt 32 src2 value then src2 else value)
amo_value32 amomaxu_w value src2 = ok (if ltb value src2 then src2 else value)
amo_value32 amominu_w value src2 = ok (if ltb src2 value then src2 else value)
amo_value32 _ value src2 = throw exited

-- What an atomic operation of 64 bits stores
unfoldable pub amo_value64 : OpCode → ℕ → ℕ → Result ℕ
amo_value64 amoswap_d value src2 = ok src2
amo_value64 amoadd_d value src2 = ok (wrap_add 64 value src2)
amo_value64 amoxor_d value src2 = ok (bit_xor value src2)
amo_value64 amoand_d value src2 = ok (bit_and value src2)
amo_value64 amoor_d value src2 = ok (bit_or value src2)
amo_value64 amomax_d value src2 = ok (if signed_lt 64 value src2 then src2 else value)
amo_value64 amomin_d value src2 = ok (if signed_lt 64 src2 value then src2 else value)
amo_value64 amomaxu_d value src2 = ok (if ltb value src2 then src2 else value)
amo_value64 amominu_d value src2 = ok (if ltb src2 value then src2 else value)
amo_value64 _ value src2 = throw exited

module _ {B : Type 0} where
  unfoldable pub process_rv32a_atomic : Environment B → Op → Execution B (Unit {0})
  unfolding amo_value32
  process_rv32a_atomic e op = do
    cancel_reservation
    o ← as_r op.operand
    src1 ← get_uint32 o.rs1
    src2 ← get_uint32 o.rs2
    value ← load32 e src1
    result ← lift (amo_value32 op.op_code value src2)
    store32 e src1 result
    put_int32 o.rd value

  unfoldable pub process_rv32a_load : Environment B → Op → Execution B (Unit {0})
  process_rv32a_load e op = do
    o ← as_r op.operand
    address ← get_uint32 o.rs1
    reserve_address address
    value ← load32 e address
    put_int32 o.rd value

  unfoldable pub process_rv32a_store : Environment B → Op → Execution B (Unit {0})
  process_rv32a_store e op = do
    o ← as_r op.operand
    address ← get_uint32 o.rs1
    value ← get_uint32 o.rs2
    atomic ← get_value (λ m. m.atomic)
    (if atomic.is_reserved && atomic.address == address
        then (do store32 e address value; put_uint32 o.rd 0)
        else put_uint32 o.rd 1)
    cancel_reservation

  unfoldable pub process_rv64a_atomic32 : Environment B → Op → Execution B (Unit {0})
  unfolding amo_value32
  process_rv64a_atomic32 e op = do
    cancel_reservation
    o ← as_r op.operand
    address ← get_uint64 o.rs1
    src2 ← get_uint32 o.rs2
    value ← load32 e address
    result ← lift (amo_value32 op.op_code value src2)
    store32 e address result
    put_int64 o.rd (sign_extend 32 value)

  unfoldable pub process_rv64a_atomic64 : Environment B → Op → Execution B (Unit {0})
  unfolding amo_value64
  process_rv64a_atomic64 e op = do
    cancel_reservation
    o ← as_r op.operand
    address ← get_uint64 o.rs1
    src2 ← get_uint64 o.rs2
    value ← load64 e address
    result ← lift (amo_value64 op.op_code value src2)
    store64 e address result
    put_uint64 o.rd value

  unfoldable pub process_rv64a_load32 : Environment B → Op → Execution B (Unit {0})
  process_rv64a_load32 e op = do
    o ← as_r op.operand
    address ← get_uint64 o.rs1
    reserve_address address
    value ← load32 e address
    put_int64 o.rd (sign_extend 32 value)

  unfoldable pub process_rv64a_load64 : Environment B → Op → Execution B (Unit {0})
  process_rv64a_load64 e op = do
    cancel_reservation
    o ← as_r op.operand
    address ← get_uint64 o.rs1
    reserve_address address
    value ← load64 e address
    put_int64 o.rd value

  unfoldable pub process_rv64a_store32 : Environment B → Op → Execution B (Unit {0})
  process_rv64a_store32 e op = do
    o ← as_r op.operand
    address ← get_uint64 o.rs1
    value ← get_uint32 o.rs2
    atomic ← get_value (λ m. m.atomic)
    (if atomic.is_reserved && atomic.address == address
        then (do store32 e address value; put_uint64 o.rd 0)
        else put_uint64 o.rd 1)
    cancel_reservation

  unfoldable pub process_rv64a_store64 : Environment B → Op → Execution B (Unit {0})
  process_rv64a_store64 e op = do
    o ← as_r op.operand
    address ← get_uint64 o.rs1
    value ← get_uint64 o.rs2
    atomic ← get_value (λ m. m.atomic)
    (if atomic.is_reserved && atomic.address == address
        then (do store64 e address value; put_uint64 o.rd 0)
        else put_uint64 o.rd 1)
    cancel_reservation

  -- The `switch` statements of ProcessRV32A and ProcessRV64A
  unfoldable pub dispatch_rv32a : Environment B → OpCode → Op → Execution B (Unit {0})
  dispatch_rv32a e lr_w op = process_rv32a_load e op
  dispatch_rv32a e sc_w op = process_rv32a_store e op
  dispatch_rv32a e amoswap_w op = process_rv32a_atomic e op
  dispatch_rv32a e amoadd_w op = process_rv32a_atomic e op
  dispatch_rv32a e amoxor_w op = process_rv32a_atomic e op
  dispatch_rv32a e amoand_w op = process_rv32a_atomic e op
  dispatch_rv32a e amoor_w op = process_rv32a_atomic e op
  dispatch_rv32a e amomax_w op = process_rv32a_atomic e op
  dispatch_rv32a e amomin_w op = process_rv32a_atomic e op
  dispatch_rv32a e amomaxu_w op = process_rv32a_atomic e op
  dispatch_rv32a e amominu_w op = process_rv32a_atomic e op
  dispatch_rv32a e _ op = error

  unfoldable pub dispatch_rv64a : Environment B → OpCode → Op → Execution B (Unit {0})
  dispatch_rv64a e lr_w op = process_rv64a_load32 e op
  dispatch_rv64a e lr_d op = process_rv64a_load64 e op
  dispatch_rv64a e sc_w op = process_rv64a_store32 e op
  dispatch_rv64a e sc_d op = process_rv64a_store64 e op
  dispatch_rv64a e amoswap_w op = process_rv64a_atomic32 e op
  dispatch_rv64a e amoadd_w op = process_rv64a_atomic32 e op
  dispatch_rv64a e amoxor_w op = process_rv64a_atomic32 e op
  dispatch_rv64a e amoand_w op = process_rv64a_atomic32 e op
  dispatch_rv64a e amoor_w op = process_rv64a_atomic32 e op
  dispatch_rv64a e amomax_w op = process_rv64a_atomic32 e op
  dispatch_rv64a e amomin_w op = process_rv64a_atomic32 e op
  dispatch_rv64a e amomaxu_w op = process_rv64a_atomic32 e op
  dispatch_rv64a e amominu_w op = process_rv64a_atomic32 e op
  dispatch_rv64a e amoswap_d op = process_rv64a_atomic64 e op
  dispatch_rv64a e amoadd_d op = process_rv64a_atomic64 e op
  dispatch_rv64a e amoxor_d op = process_rv64a_atomic64 e op
  dispatch_rv64a e amoand_d op = process_rv64a_atomic64 e op
  dispatch_rv64a e amoor_d op = process_rv64a_atomic64 e op
  dispatch_rv64a e amomax_d op = process_rv64a_atomic64 e op
  dispatch_rv64a e amomin_d op = process_rv64a_atomic64 e op
  dispatch_rv64a e amomaxu_d op = process_rv64a_atomic64 e op
  dispatch_rv64a e amominu_d op = process_rv64a_atomic64 e op
  dispatch_rv64a e _ op = error

  unfoldable pub process_rv32a : Environment B → Op → Execution B (Unit {0})
  unfolding dispatch_rv32a
  process_rv32a e op = dispatch_rv32a e op.op_code op

  unfoldable pub process_rv64a : Environment B → Op → Execution B (Unit {0})
  unfolding dispatch_rv64a
  process_rv64a e op = dispatch_rv64a e op.op_code op
