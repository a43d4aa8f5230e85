-- ===== src/Examples/Traps.antt =====
-- Traps and interrupts of a processor (src/bin/rafi-emu/cpu/TrapProcessor.cpp and
-- InterruptController.cpp).
use rafi_1st.Base.{◌^◌, ◌≡◌, refl, inl, false, true, arith, none, ok, [], if◌then◌else◌}
use rafi_1st.Base.Bits.{test_bit}
use rafi_1st.RvTypes.{rv64, user, machine_timer}
use rafi_1st.Cpu.Trap.{make_load_page_fault_exception}
use rafi_1st.Cpu.Csr.{Csr, initial_csr}
use rafi_1st.Cpu.TrapProcessor.{cause_of, process_exception, process_interrupt}
use rafi_1st.Cpu.TrapProcessor.Entry.{IsEntered}
use rafi_1st.Cpu.TrapProcessor.Delegation.{
  delegated_level, process_exception-IsEntered, process_interrupt-IsEntered,
}
use rafi_1st.Cpu.TrapProcessor.Machine.{
  enter_and_return_machine, enter_and_return_machine-IsRestored,
}
use rafi_1st.Cpu.TrapProcessor.Machine as Machine
use rafi_1st.Cpu.TrapProcessor.Supervisor.{
  enter_and_return_supervisor, enter_and_return_supervisor-IsRestored,
}
use rafi_1st.Cpu.TrapProcessor.Supervisor as Supervisor
use rafi_1st.Cpu.InterruptController.{InterruptController, update, update_csr, record_request}
use rafi_1st.Cpu.InterruptController.Selection.{by_priority, first_ready, enable_bit, update_lem}
use rafi_1st.Cpu.InterruptController.Pending.{updated_bit, test_bit-update_csr}

-- A user program under a supervisor that takes load page faults, with every level's interrupts on
-- and the machine timer's enabled
abbrev in_user : Csr
in_user = record (initial_csr rv64 0x80000000) {
  priv = user;
  pc = 0x1000;
  status = 0xb;
  machine_exception_delegation = 2 ^ 13;
  interrupt_enable = 2 ^ 7;
  machine_trap_vector = 0x80001001;
  supervisor_trap_vector = 0x80200000;
}

abbrev idle : InterruptController
idle = record { is_requested = false; interrupt_type = machine_timer }

process_exception-IsEntered_example :
    IsEntered rv64 in_user
      (delegated_level (2 ^ 13) 0 13)
      false
      13
      0x2000
      0x1000
      (process_exception rv64 in_user [] (make_load_page_fault_exception 0x1000 0x2000))
process_exception-IsEntered_example =
    process_exception-IsEntered rv64 in_user [] (make_load_page_fault_exception 0x1000 0x2000)
      (omega arith)

process_interrupt-IsEntered_example :
    IsEntered rv64 in_user
      (delegated_level 0 0 7)
      true
      7
      0
      0x1000
      (process_interrupt rv64 in_user [] machine_timer 0x1000)
process_interrupt-IsEntered_example =
    process_interrupt-IsEntered rv64 in_user [] machine_timer 0x1000 (omega arith)

enter_and_return_machine-IsRestored_example :
    Machine.IsRestored in_user
      (cause_of rv64 true 7)
      0x1000
      0
      (enter_and_return_machine rv64 in_user [] true 7 0 0x1000)
enter_and_return_machine-IsRestored_example =
    enter_and_return_machine-IsRestored rv64 in_user [] true 7 0 0x1000 (omega arith)

enter_and_return_supervisor-IsRestored_example :
    Supervisor.IsRestored in_user
      (cause_of rv64 false 13)
      0x1000
      0x2000
      (enter_and_return_supervisor rv64 in_user [] false 13 0x2000 0x1000)
enter_and_return_supervisor-IsRestored_example =
    enter_and_return_supervisor-IsRestored rv64 in_user [] false 13 0x2000 0x1000 (omega arith)
      (inl refl)

test_bit-update_csr_example :
    test_bit (update_csr in_user true).interrupt_pending 7 ≡ updated_bit in_user true 7
test_bit-update_csr_example = test_bit-update_csr in_user true 7 (omega arith)

update_lem_example :
    update in_user true idle
    ≡ ok (
      record in_user { interrupt_pending = (update_csr in_user true).interrupt_pending },
      record_request idle (
          if test_bit in_user.status (enable_bit user)
          then first_ready in_user.interrupt_enable
              (update_csr in_user true).interrupt_pending
              by_priority
          else none),
    )
update_lem_example = update_lem in_user true idle (omega arith) (λ e. cc)
