-- ===== src/Cpu/Processor/Interrupt.antt =====
-- When a cycle takes an interrupt (src/bin/rafi-emu/cpu/Processor.cpp with InterruptController.cpp
-- and TrapProcessor.cpp).
use rafi_1st.Base
use rafi_1st.Base.{
  ℕ, ◌^◌, ◌<◌, ◌≡◌, ◌≢◌, ◌∙◌, refl, ap, Bool, true, if◌then◌else◌, Option, some, List, Result, ok,
  throw,
}
use rafi_1st.Base.Bits.{test_bit}
use rafi_1st.BitField.{get_member}
use rafi_1st.RvTypes.{
  InterruptType, PrivilegeLevel, user, supervisor, reserved, machine, interrupt_code,
}
use rafi_1st.Trace.{Event}
use rafi_1st.Cpu.Csr
use rafi_1st.Cpu.Csr.{Csr}
use rafi_1st.Cpu.InterruptController
use rafi_1st.Cpu.InterruptController.{InterruptController, update_csr, record_request}
use rafi_1st.Cpu.InterruptController.Selection.{by_priority, first_ready, enable_bit, update_lem}
use rafi_1st.Cpu.TrapProcessor.{process_interrupt, cause_of, target_pc}
use rafi_1st.Cpu.TrapProcessor.Entry.{
  cause_register, exception_pc_register, trap_vector, enable_field,
}
use rafi_1st.Cpu.TrapProcessor.Delegation.{delegated_level, process_interrupt-IsEntered}
use rafi_1st.Cpu.Executor.Machine.{Machine, Environment, modify}
use rafi_1st.Cpu.Executor.MemorySteps.{with_trap, take_interrupt}
use rafi_1st.Cpu.Processor.{
  Processor, process_cycle, process_after_update, process_instruction, with_machine,
}

module _ {B : Type 0} (e : Environment B) (timer : Bool) (p : Processor B) where
  requested_cycle :
      (c : Csr) (i : InterruptController)
      → InterruptController.update (Csr.process_cycle p.machine.csr) timer p.interrupt_controller
        ≡ ok (c, i)
      → i.is_requested ≡ true
      → process_cycle e timer p
        ≡ with_machine i
            (take_interrupt e i.interrupt_type p.machine.csr.pc (record p.machine { csr = c }))
  unfolding process_cycle process_after_update Csr.process_cycle
  requested_cycle c i updated requested =
      ap
        (λ r. Base.◌>>=◌ r (λ x. with_machine x.1 (
          process_after_update e x.1 p.machine.csr.priv p.machine.csr.pc
            (record p.machine { csr = x.0 }))))
        updated
      ∙ ap
          (λ b. with_machine i (
            (if b
                then take_interrupt e i.interrupt_type p.machine.csr.pc
                else process_instruction e p.machine.csr.priv p.machine.csr.pc)
              (record p.machine { csr = c })))
          requested

take_interrupt-returns :
    {B : Type 0} (e : Environment B) (type : InterruptType) (pc : ℕ) (m : Machine B) (c : Csr)
    (events : List Event)
    → process_interrupt e.xlen m.csr m.memory.1 type pc ≡ ok (c, events)
    → take_interrupt e type pc m ≡ ok (tt, record m { csr = c; memory = (m.memory.0, events) })
unfolding take_interrupt modify
take_interrupt-returns {B} e type pc m c events eq =
    ap
      (λ r. elim (with_trap m r) as (λ _. Result (Unit {0} × Machine B)) [
        | ok m' ↦ ok (tt, m')
        | throw fault ↦ throw fault
      ])
      eq

-- The counters and the pending bits are no part of a vector.
trap_vector-counted :
    (c : Csr) (pending : ℕ) (level : PrivilegeLevel)
    → trap_vector level (record (Csr.process_cycle c) { interrupt_pending = pending })
      ≡ trap_vector level c
unfolding Csr.process_cycle
trap_vector-counted c pending user = refl
trap_vector-counted c pending supervisor = refl
trap_vector-counted c pending reserved = refl
trap_vector-counted c pending machine = refl

-- A cycle that took an interrupt of the type at the level
pub record HasTaken {B : Type 0} (e : Environment B) (p : Processor B) (type : InterruptType)
    (level : PrivilegeLevel) (result : Result (Processor B)) : Type 0 where
  pub after : Processor B
  pub returns : result ≡ ok after
  pub priv : after.machine.csr.priv ≡ level
  pub cause : cause_register level after.machine.csr ≡ cause_of e.xlen true (interrupt_code type)
  pub saved_pc : exception_pc_register level after.machine.csr ≡ p.machine.csr.pc
  pub target :
      after.machine.csr.pc
      ≡ target_pc e.xlen (trap_vector level p.machine.csr) true (interrupt_code type)
  pub disabled : get_member after.machine.csr.status (enable_field level) ≡ 0
  pub int_regs : after.machine.int_regs ≡ p.machine.int_regs
  pub fp_regs : after.machine.fp_regs ≡ p.machine.fp_regs
  pub reservation : after.machine.atomic ≡ p.machine.atomic
  pub float : after.machine.float ≡ p.machine.float
  pub bus : after.machine.memory.0 ≡ p.machine.memory.0

-- If the level of the processor has its interrupts on and some interrupt is enabled and pending
-- after the answer of the timer, the very next cycle returns and has taken the first in the
-- emulator's order: at the level that the delegation registers name for it, from that level's
-- vector, with the program counter saved and further interrupts of the level off. The integer and
-- floating-point registers, the reservation, the state of SoftFloat and the bus are as before.
pub process_cycle-HasTaken :
    {B : Type 0} (e : Environment B) (timer : Bool) (p : Processor B) (type : InterruptType)
    → p.machine.csr.status < 2 ^ 64
    → p.machine.csr.priv ≢ reserved
    → test_bit p.machine.csr.status (enable_bit p.machine.csr.priv) ≡ true
    → first_ready p.machine.csr.interrupt_enable
        (update_csr (Csr.process_cycle p.machine.csr) timer).interrupt_pending
        by_priority
      ≡ some type
    → HasTaken e p type
        (delegated_level p.machine.csr.machine_interrupt_delegation
          p.machine.csr.supervisor_interrupt_delegation
          (interrupt_code type))
        (process_cycle e timer p)
unfolding Csr.process_cycle
process_cycle-HasTaken e timer p type small real enabled ready =
    let counted : Csr = Csr.process_cycle p.machine.csr in
    let c : Csr = record counted {
      interrupt_pending = (update_csr counted timer).interrupt_pending;
    } in
    let updated = update_lem counted timer p.interrupt_controller small real in
    let entered =
      process_interrupt-IsEntered e.xlen c p.machine.memory.1 type p.machine.csr.pc small in
    record {
      after = record {
        machine = record p.machine {
          csr = entered.after;
          memory = (p.machine.memory.0, entered.events);
        };
        interrupt_controller = record_request p.interrupt_controller (some type);
      };
      returns =
          requested_cycle e timer p c (record_request p.interrupt_controller (some type))
            (updated
              ∙ ap
                  (λ b. ok (
                    c,
                    record_request p.interrupt_controller (
                        if b
                        then first_ready c.interrupt_enable c.interrupt_pending by_priority
                        else Base.none),
                  ))
                  enabled
              ∙ ap (λ t. ok (c, record_request p.interrupt_controller t)) ready)
            refl
          ∙ ap (with_machine (record_request p.interrupt_controller (some type))) (
              take_interrupt-returns e type p.machine.csr.pc (record p.machine { csr = c })
                entered.after entered.events entered.returns);
      priv = entered.priv;
      cause = entered.cause;
      saved_pc = entered.saved_pc;
      target =
          entered.target
          ∙ ap (λ (v : ℕ). target_pc e.xlen v true (interrupt_code type))
              (trap_vector-counted p.machine.csr (update_csr counted timer).interrupt_pending (
                delegated_level c.machine_interrupt_delegation c.supervisor_interrupt_delegation
                  (interrupt_code type)));
      disabled = entered.disabled;
      int_regs = refl;
      fp_regs = refl;
      reservation = refl;
      float = refl;
      bus = refl;
    }
