-- ===== src/Cpu/Trap.antt =====
-- src/bin/rafi-emu/cpu/Trap.cpp: an exception, where it happened, and its trap value.
use rafi_1st.Base.{ℕ}
use rafi_1st.RvTypes.{
  ExceptionType, illegal_instruction, breakpoint, environment_call_from_user,
  environment_call_from_supervisor, environment_call_from_machine, instruction_page_fault,
  load_page_fault, store_page_fault,
}

pub record Trap : Type 0 where
  pub type : ExceptionType
  pub pc : ℕ
  pub trap_value : ℕ

abbrev pub make_illegal_instruction_exception : ℕ → ℕ → Trap
make_illegal_instruction_exception pc insn = record {
  type = illegal_instruction;
  pc = pc;
  trap_value = insn;
}

abbrev pub make_breakpoint_exception : ℕ → Trap
make_breakpoint_exception pc = record { type = breakpoint; pc = pc; trap_value = pc }

abbrev pub make_environment_call_from_user_exception : ℕ → Trap
make_environment_call_from_user_exception pc = record {
  type = environment_call_from_user;
  pc = pc;
  trap_value = pc;
}

abbrev pub make_environment_call_from_supervisor_exception : ℕ → Trap
make_environment_call_from_supervisor_exception pc = record {
  type = environment_call_from_supervisor;
  pc = pc;
  trap_value = pc;
}

abbrev pub make_environment_call_from_machine_exception : ℕ → Trap
make_environment_call_from_machine_exception pc = record {
  type = environment_call_from_machine;
  pc = pc;
  trap_value = pc;
}

abbrev pub make_instruction_page_fault_exception : ℕ → ℕ → Trap
make_instruction_page_fault_exception pc address = record {
  type = instruction_page_fault;
  pc = pc;
  trap_value = address;
}

abbrev pub make_load_page_fault_exception : ℕ → ℕ → Trap
make_load_page_fault_exception pc address = record {
  type = load_page_fault;
  pc = pc;
  trap_value = address;
}

abbrev pub make_store_page_fault_exception : ℕ → ℕ → Trap
make_store_page_fault_exception pc address = record {
  type = store_page_fault;
  pc = pc;
  trap_value = address;
}
