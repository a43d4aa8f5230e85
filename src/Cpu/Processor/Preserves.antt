-- ===== src/Cpu/Processor/Preserves.antt =====
-- The cycle of src/bin/rafi-emu/cpu/Processor.cpp keeps what the basic steps keep.
use rafi_1st.Cpu.Executor.Keeps.{Keeps}
use rafi_1st.Cpu.Executor.Machine.{Environment, Execution, Machine}
use rafi_1st.Cpu.Executor.Stable.{Stable, stable_rules}
use rafi_1st.Cpu.Action.{Outcome, trapped, value}
use rafi_1st.Cpu.Processor.{
  decode_and_execute, execute, fetch, fetch_high, fetch_low, fetch_word, process_after_update,
  process_instruction, unless_exception,
}
use rafi_1st.Base.{Option, none, some, ℕ}
use rafi_1st.Cpu.Trap.{Trap}
use rafi_1st.Cpu.Executor.Preserves.Run.{pre_check_trap-Keeps, process_op-Keeps}
use rafi_1st.Cpu.Executor.Preserves.Check.{post_check_trap-Keeps}
use rafi_1st.Decoder.Ops.{Op}
use rafi_1st.RvTypes.{PrivilegeLevel}
use rafi_1st.Cpu.InterruptController.{InterruptController}

module _ {B : Type 0} {P : Machine B → Type 0} ⦃stable : Stable P⦄ where
  pub fetch_high-Keeps :
      (e : Environment B) (pc : ℕ) (insn_low : ℕ) (found : Outcome ℕ)
      → Keeps P (fetch_high e pc insn_low found)
  unfolding fetch_high
  fetch_high-Keeps e pc insn_low (trapped t) = search stable_rules depth 60
  fetch_high-Keeps e pc insn_low (value paddr_high) = search stable_rules depth 60

  pub fetch_low-Keeps :
      (e : Environment B) (pc : ℕ) (found : Outcome ℕ) → Keeps P (fetch_low e pc found)
  unfolding fetch_low
  fetch_low-Keeps e pc (trapped t) = search (stable_rules, fetch_high-Keeps) depth 60
  fetch_low-Keeps e pc (value paddr_low) = search (stable_rules, fetch_high-Keeps) depth 60

  pub fetch_word-Keeps :
      (e : Environment B) (pc : ℕ) (found : Outcome ℕ) → Keeps P (fetch_word e pc found)
  unfolding fetch_word
  fetch_word-Keeps e pc (trapped t) = search stable_rules depth 60
  fetch_word-Keeps e pc (value paddr) = search stable_rules depth 60

  pub fetch-Keeps : (e : Environment B) (pc : ℕ) → Keeps P (fetch e pc)
  unfolding fetch
  fetch-Keeps e pc = search (stable_rules, fetch_low-Keeps, fetch_word-Keeps) depth 60

  pub unless_exception-Keeps :
      (e : Environment B) (found : Option Trap) (next : Execution B (Unit {0}))
      → Keeps P next
      → Keeps P (unless_exception e found next)
  unfolding unless_exception
  unless_exception-Keeps e none next kept = kept
  unless_exception-Keeps e (some t) next kept = search stable_rules depth 60

  pub execute-Keeps :
      (e : Environment B) (op : Op) (pc : ℕ) (insn : ℕ) → Keeps P (execute e op pc insn)
  unfolding execute
  execute-Keeps e op pc insn =
      search
        (
          stable_rules, pre_check_trap-Keeps, unless_exception-Keeps, process_op-Keeps,
          post_check_trap-Keeps,
        )
        depth 60

  pub decode_and_execute-Keeps :
      (e : Environment B) (priv : PrivilegeLevel) (pc : ℕ) (found : Outcome ℕ)
      → Keeps P (decode_and_execute e priv pc found)
  unfolding decode_and_execute
  decode_and_execute-Keeps e priv pc (trapped t) = search (stable_rules, execute-Keeps) depth 60
  decode_and_execute-Keeps e priv pc (value insn) = search (stable_rules, execute-Keeps) depth 60

  pub process_instruction-Keeps :
      (e : Environment B) (priv : PrivilegeLevel) (pc : ℕ) → Keeps P (process_instruction e priv pc)
  unfolding process_instruction
  process_instruction-Keeps e priv pc =
      search (stable_rules, fetch-Keeps, decode_and_execute-Keeps) depth 60

  pub process_after_update-Keeps :
      (e : Environment B) (i : InterruptController) (priv : PrivilegeLevel) (pc : ℕ)
      → Keeps P (process_after_update e i priv pc)
  unfolding process_after_update
  process_after_update-Keeps e i priv pc = search (stable_rules, process_instruction-Keeps) depth 60
