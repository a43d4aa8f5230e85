-- ===== src/Cpu/TrapProcessor/Delegation.antt =====
-- Every exception and every interrupt is taken, at the level that the delegation registers name.
use rafi_1st.Base.{ℕ, ◌^◌, ◌<◌, ◌≡◌, ◌≢◌, refl, Bool, true, false, if◌then◌else◌, List, arith}
use rafi_1st.Base.Bits.{test_bit, bit_and-two_pow}
use rafi_1st.RvTypes.{
  SupportedXlen, PrivilegeLevel, user, supervisor, reserved, machine, exception_code, InterruptType,
  interrupt_code,
}
use rafi_1st.RvCsr.Addr
use rafi_1st.Trace.{Event}
use rafi_1st.Cpu.Trap.{Trap}
use rafi_1st.Cpu.Csr.{Csr, read_status, write_status, set_priv}
use rafi_1st.Cpu.Csr.Read.{
  read_uint64, read_machine_mode_register, read_supervisor_mode_register, read_user_mode_register,
}
use rafi_1st.Cpu.Csr.Write.{
  write_uint64, write_machine_mode_register, write_supervisor_mode_register,
  write_user_mode_register,
}
use rafi_1st.Cpu.TrapProcessor.{
  enter_vector, save_machine, save_supervisor, save_user, cause_of, next_priv, process_trap_enter,
  process_exception, process_interrupt,
}
use rafi_1st.Cpu.TrapProcessor.Supervisor.{read}
use rafi_1st.Cpu.TrapProcessor.Entry.{
  IsEntered, machine_disabled, supervisor_disabled, user_disabled,
}

module _ (xlen : SupportedXlen) (c : Csr) (events : List Event) (is_interrupt : Bool)
    (code trap_value pc : ℕ) (small : c.status < 2 ^ 64) where
  enter-machine :
      IsEntered xlen c machine is_interrupt code trap_value pc
        (process_trap_enter xlen c events is_interrupt code trap_value pc machine)
  unfolding process_trap_enter save_machine read_uint64 write_uint64 read_machine_mode_register
      write_machine_mode_register write_status read_status
  enter-machine =
      let cause = cause_of xlen is_interrupt code in
      let saved = save_machine (set_priv c machine) c.priv cause pc trap_value in
      let vector = read_uint64 saved Addr.mtvec in
      let entered = enter_vector xlen saved events is_interrupt code trap_value machine vector in
      record {
        after = entered.0;
        events = entered.1;
        returns = refl;
        priv = refl;
        cause = refl;
        saved_pc = refl;
        saved_value = refl;
        target = refl;
        disabled = machine_disabled c small;
      }

  enter-supervisor :
      IsEntered xlen c supervisor is_interrupt code trap_value pc
        (process_trap_enter xlen c events is_interrupt code trap_value pc supervisor)
  unfolding process_trap_enter save_supervisor read_uint64 write_uint64
      read_supervisor_mode_register write_supervisor_mode_register write_status read_status read
  enter-supervisor =
      let cause = cause_of xlen is_interrupt code in
      let saved = save_supervisor (set_priv c supervisor) c.priv cause pc trap_value in
      let vector = read_uint64 saved Addr.stvec in
      let entered = enter_vector xlen saved events is_interrupt code trap_value supervisor vector in
      record {
        after = entered.0;
        events = entered.1;
        returns = refl;
        priv = refl;
        cause = refl;
        saved_pc = refl;
        saved_value = refl;
        target = refl;
        disabled = supervisor_disabled c small;
      }

  enter-user :
      IsEntered xlen c user is_interrupt code trap_value pc
        (process_trap_enter xlen c events is_interrupt code trap_value pc user)
  unfolding process_trap_enter save_user read_uint64 write_uint64 read_user_mode_register
      write_user_mode_register write_status read_status
  enter-user =
      let cause = cause_of xlen is_interrupt code in
      let saved = save_user (set_priv c user) cause pc trap_value in
      let vector = read_uint64 saved Addr.utvec in
      let entered = enter_vector xlen saved events is_interrupt code trap_value user vector in
      record {
        after = entered.0;
        events = entered.1;
        returns = refl;
        priv = refl;
        cause = refl;
        saved_pc = refl;
        saved_value = refl;
        target = refl;
        disabled = user_disabled c small;
      }

  process_trap_enter-IsEntered :
      (next : PrivilegeLevel)
      → next ≢ reserved
      → IsEntered xlen c next is_interrupt code trap_value pc
          (process_trap_enter xlen c events is_interrupt code trap_value pc next)
  process_trap_enter-IsEntered machine h = enter-machine
  process_trap_enter-IsEntered supervisor h = enter-supervisor
  process_trap_enter-IsEntered user h = enter-user
  process_trap_enter-IsEntered reserved h = absurd (h refl)

-- The level that a delegation register and the one below it name for a code.
abbrev pub delegated_level : ℕ → ℕ → ℕ → PrivilegeLevel
delegated_level first second code =
    if test_bit first code then (if test_bit second code then user else supervisor) else machine

next_priv-eq-delegated_level :
    (c : Csr) (first second code : ℕ)
    → next_priv c first second code
      ≡ delegated_level (read_uint64 c first) (read_uint64 c second) code
next_priv-eq-delegated_level c first second code =
    rw (bit_and-two_pow (read_uint64 c first) code, bit_and-two_pow (read_uint64 c second) code)

delegated_level-ne-reserved : (first second code : ℕ) → delegated_level first second code ≢ reserved
delegated_level-ne-reserved first second code h = ground arith

-- An exception never throws. It is taken at the level that bit `code` of `medeleg`, and then of
-- `sedeleg`, names, from whatever level it was raised at.
pub process_exception-IsEntered :
    (xlen : SupportedXlen) (c : Csr) (events : List Event) (t : Trap)
    → c.status < 2 ^ 64
    → let code = exception_code t.type in
      let level =
        delegated_level c.machine_exception_delegation c.supervisor_exception_delegation code in
      IsEntered xlen c level false code t.trap_value t.pc (process_exception xlen c events t)
unfolding process_exception read_uint64 read_machine_mode_register read_supervisor_mode_register
process_exception-IsEntered xlen c events t small =
    let code = exception_code t.type in
    let level =
      delegated_level c.machine_exception_delegation c.supervisor_exception_delegation code in
    rw (next_priv-eq-delegated_level c Addr.medeleg Addr.sedeleg code) (
      process_trap_enter-IsEntered xlen c events false code t.trap_value t.pc small level (
        delegated_level-ne-reserved c.machine_exception_delegation c.supervisor_exception_delegation
          code))

-- An interrupt never throws. It is taken with a trap value of 0 at the level that bit `code` of
-- `mideleg`, and then of `sideleg`, names.
pub process_interrupt-IsEntered :
    (xlen : SupportedXlen) (c : Csr) (events : List Event) (type : InterruptType) (pc : ℕ)
    → c.status < 2 ^ 64
    → let code = interrupt_code type in
      let level =
        delegated_level c.machine_interrupt_delegation c.supervisor_interrupt_delegation code in
      IsEntered xlen c level true code 0 pc (process_interrupt xlen c events type pc)
unfolding process_interrupt read_uint64 read_machine_mode_register read_supervisor_mode_register
process_interrupt-IsEntered xlen c events type pc small =
    let code = interrupt_code type in
    let level =
      delegated_level c.machine_interrupt_delegation c.supervisor_interrupt_delegation code in
    rw (next_priv-eq-delegated_level c Addr.mideleg Addr.sideleg code) (
      process_trap_enter-IsEntered xlen c events true code 0 pc small level (
        delegated_level-ne-reserved c.machine_interrupt_delegation c.supervisor_interrupt_delegation
          code))
