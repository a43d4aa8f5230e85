-- ===== src/Cpu/Processor.antt =====
-- src/bin/rafi-emu/cpu/Processor.h and .cpp: the processor and its cycle. The answer of the timer's
-- interrupt source is an argument of the cycle.
pub mod Preserves
pub mod Precise
pub mod Interrupt
pub mod Reach
use rafi_1st.Base
use rafi_1st.Base.{
  ℕ, ◌+◌, ◌*◌, ◌%◌, ◌^◌, bit_or, Bool, true, false, ◌==◌, if◌then◌else◌, Option, none, some, Result,
  ok, throw,
}
use rafi_1st.Word.{wrap_add}
use rafi_1st.RvTypes.{PrivilegeLevel, instruction}
use rafi_1st.Decoder.{decode_uint32, is_compressed_instruction}
use rafi_1st.Decoder.Ops.{Op, OpCode, unknown}
use rafi_1st.Cpu.Trap.{Trap, make_illegal_instruction_exception}
use rafi_1st.Cpu.Action.{Outcome, value, trapped}
use rafi_1st.Cpu.Csr
use rafi_1st.Cpu.Csr.{Csr}
use rafi_1st.Cpu.InterruptController
use rafi_1st.Cpu.InterruptController.{InterruptController}
use rafi_1st.Cpu.Executor.Machine.{Environment, Machine, Execution, ◌>>=◌, ◌>>◌, pure, lift}
use rafi_1st.Cpu.Executor.Steps.{jump_to}
use rafi_1st.Cpu.Executor.MemorySteps.{
  translate_at, fetch16, fetch32, add_op_event, raise_exception, take_interrupt,
}
use rafi_1st.Cpu.Executor.Check.System.{post_check_trap}
use rafi_1st.Cpu.Executor.Run.{pre_check_trap, process_op}

pub record Processor (B : Type 0) : Type 0 where
  pub machine : Machine B
  pub interrupt_controller : InterruptController

abbrev pub is_unknown : OpCode → Bool
is_unknown unknown = true
is_unknown _ = false

module _ {B : Type 0} (e : Environment B) where
  -- Fetch; RAFI_RETURN_IF_TRAP ends it with a trap.
  unfoldable pub fetch_high : ℕ → ℕ → Outcome ℕ → Execution B (Outcome ℕ)
  fetch_high pc insn_low (trapped t) = pure (trapped t)
  fetch_high pc insn_low (value paddr_high) = do
    insn_high ← fetch16 e (wrap_add 64 pc 2) paddr_high
    pure (value (bit_or (insn_high * 2 ^ 16) insn_low))

  unfoldable pub fetch_low : ℕ → Outcome ℕ → Execution B (Outcome ℕ)
  unfolding fetch_high
  fetch_low pc (trapped t) = pure (trapped t)
  fetch_low pc (value paddr_low) = do
    insn_low ← fetch16 e pc paddr_low
    (if is_compressed_instruction insn_low then pure (value insn_low) else (do
      found ← translate_at e instruction (wrap_add 64 pc 2) pc
      fetch_high pc insn_low found))

  unfoldable pub fetch_word : ℕ → Outcome ℕ → Execution B (Outcome ℕ)
  fetch_word pc (trapped t) = pure (trapped t)
  fetch_word pc (value paddr) = do insn ← fetch32 e pc paddr; pure (value insn)

  unfoldable pub fetch : ℕ → Execution B (Outcome ℕ)
  unfolding fetch_low fetch_word
  fetch pc =
      if pc % 0x1000 == 0xffe
      then (do found ← translate_at e instruction pc pc; fetch_low pc found)
      else (do found ← translate_at e instruction pc pc; fetch_word pc found)

  -- An exception ends the cycle.
  unfoldable pub unless_exception : Option Trap → Execution B (Unit {0}) → Execution B (Unit {0})
  unless_exception none next = next
  unless_exception (some t) next = raise_exception e t

  -- The cycle from `// Execute` on
  unfoldable pub execute : Op → ℕ → ℕ → Execution B (Unit {0})
  unfolding unless_exception
  execute op pc insn = do
    pre_execute_trap ← pre_check_trap e op pc insn
    unless_exception pre_execute_trap (do
      jump_to (wrap_add 64 pc (if is_compressed_instruction insn then 2 else 4))
      process_op e op pc
      post_execute_trap ← post_check_trap op.op_code pc
      unless_exception post_execute_trap (pure tt))

  unfoldable pub decode_and_execute : PrivilegeLevel → ℕ → Outcome ℕ → Execution B (Unit {0})
  unfolding execute
  decode_and_execute priv pc (trapped t) = raise_exception e t
  decode_and_execute priv pc (value insn) = do
    add_op_event insn priv
    op ← lift (decode_uint32 e.xlen insn)
    (if is_unknown op.op_code
        then raise_exception e (make_illegal_instruction_exception pc insn)
        else execute op pc insn)

  -- The cycle from `// Fetch` on
  unfoldable pub process_instruction : PrivilegeLevel → ℕ → Execution B (Unit {0})
  unfolding fetch decode_and_execute
  process_instruction priv pc = do fetched ← fetch pc; decode_and_execute priv pc fetched

  -- The cycle after `m_InterruptController.Update`
  unfoldable pub process_after_update :
      InterruptController → PrivilegeLevel → ℕ → Execution B (Unit {0})
  unfolding process_instruction
  process_after_update i priv pc =
      if i.is_requested then take_interrupt e i.interrupt_type pc else process_instruction priv pc

abbrev with_machine :
    {B : Type 0} → InterruptController → Result (Unit {0} × Machine B) → Result (Processor B)
with_machine i (ok (u, m)) = ok (record { machine = m; interrupt_controller = i })
with_machine i (throw fault) = throw fault

unfoldable pub process_cycle :
    {B : Type 0} → Environment B → Bool → Processor B → Result (Processor B)
unfolding process_after_update
process_cycle e timer_requested p =
    let m = p.machine in
    let c = Csr.process_cycle m.csr in
    Base.◌>>=◌ (InterruptController.update c timer_requested p.interrupt_controller)
      (λ r. with_machine r.1 (process_after_update e r.1 c.priv c.pc (record m { csr = r.0 })))
