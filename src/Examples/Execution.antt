-- ===== src/Examples/Execution.antt =====
-- Cycles of a small processor (src/bin/rafi-emu/cpu/Processor.cpp), and instructions of its
-- executor (src/bin/rafi-emu/cpu/Executor.cpp).
use rafi_1st.Base.{◌≡◌, refl, arith, false, true, ok, some, [], ◌∷◌, ◌==◌, if◌then◌else◌}
use rafi_1st.Trace.{memory, op}
use rafi_1st.RvTypes.{machine, user, instruction}
use rafi_1st.Examples.Board.{board, start, ends_in, start-IsWellFormed}
use rafi_1st.Decoder.Ops
use rafi_1st.Decoder.Ops.{Op, rv64i, wfi, operand_i, div, rem, divu, remu, divw}
use rafi_1st.Cpu.Trap.{Trap, make_illegal_instruction_exception}
use rafi_1st.Cpu.Csr
use rafi_1st.Cpu.Csr.{Csr}
use rafi_1st.Cpu.InterruptController
use rafi_1st.Cpu.InterruptController.{InterruptController}
use rafi_1st.Base.{sym, ◌∙◌}
use rafi_1st.Base.Bits.{test_bit}
use rafi_1st.BitField.{get_member}
use rafi_1st.BitField.Bit.{get_member-bit}
use rafi_1st.RvTypes.{machine_timer}
use rafi_1st.Cpu.InterruptController.{select_interrupt, update_csr}
use rafi_1st.Cpu.InterruptController.Selection.{
  by_priority, first_ready, select_interrupt-eq-first_ready,
}
use rafi_1st.Cpu.TrapProcessor.Delegation.{delegated_level}
use rafi_1st.Cpu.Processor.Interrupt.{HasTaken, process_cycle-HasTaken}
use rafi_1st.Cpu.TrapProcessor.{process_exception, process_interrupt}
use rafi_1st.Cpu.Executor.Machine.{Machine}
use rafi_1st.Cpu.Executor.WellFormed.{IsWellFormed}
use rafi_1st.Cpu.Executor.Run.{pre_check_trap}
use rafi_1st.Cpu.Processor.{Processor, process_cycle, execute}
use rafi_1st.Cpu.Processor.Precise.{IsTrapped, execute-IsTrapped}
use rafi_1st.Cpu.Processor.Reach.{here, next, cycle, Reach-IsWellFormed}

abbrev after_one : Processor (Unit {0})
after_one = record start {
  machine = record (start.machine) {
    csr = record (start.machine.csr) {
      pc = 0x80000004;
      cycle_counter = 1;
      time_counter = 1;
      instruction_retired_counter = 1;
    };
    int_regs = record { entries = λ i. if i == 1 then 5 else 0 };
    memory = (
      tt,
      memory (record {
        access_type = instruction;
        size = 4;
        value = 0x00500093;
        vaddr = 0x80000000;
        paddr = 0x80000000;
      })
          ∷ op (record { insn = 0x00500093; priv = machine })
          ∷ [],
    );
  };
}

one_cycle : process_cycle board false start ≡ ok after_one
unfolding process_cycle rafi_1st.Cpu.InterruptController.update
    rafi_1st.Cpu.InterruptController.update_csr rafi_1st.Cpu.Csr.process_cycle
    rafi_1st.BitField.get_member rafi_1st.Cpu.Csr.read_status rafi_1st.Cpu.Executor.Machine.◌>>=◌
    rafi_1st.Cpu.Executor.MemorySteps.translate_at
    rafi_1st.Cpu.MemoryAccessUnit.get_address_translation_mode
    rafi_1st.Cpu.MemoryAccessUnit.get_effective_privilege_level
    rafi_1st.Cpu.Executor.MemorySteps.fetch32 rafi_1st.Cpu.Executor.Machine.pure
    rafi_1st.Cpu.Executor.MemorySteps.add_op_event rafi_1st.Cpu.Executor.Machine.lift
    rafi_1st.Decoder.decode_uint32 rafi_1st.Decoder.is_m rafi_1st.Decoder.Fields.pick
    rafi_1st.Decoder.is_a rafi_1st.Decoder.is_f rafi_1st.Decoder.is_d
    rafi_1st.Decoder.IntegerOps.decode_i rafi_1st.Cpu.Executor.Run.pre_check_trap
    rafi_1st.Cpu.Executor.Steps.jump_to rafi_1st.Cpu.Executor.Run.process_op
    rafi_1st.Cpu.Executor.Integer.Rv64.process_rv64i
    rafi_1st.Cpu.Executor.Integer.Rv64.process_rv64i_alu_imm rafi_1st.Cpu.Executor.Operands.as_i
    rafi_1st.Decoder.Operands.decode_operand_i rafi_1st.Cpu.Executor.Steps.get_int64
    rafi_1st.Cpu.IntRegFile.read_int64 rafi_1st.Cpu.Executor.Steps.get_uint64
    rafi_1st.Cpu.IntRegFile.read_uint64 rafi_1st.Cpu.Executor.Steps.get_int32
    rafi_1st.Cpu.IntRegFile.read_int32 rafi_1st.Cpu.Executor.Steps.put_int64
    rafi_1st.Cpu.IntRegFile.write_int64 rafi_1st.Cpu.Executor.Check.System.post_check_trap
    rafi_1st.Cpu.InterruptController.update_external rafi_1st.Cpu.IntRegFile.write64
    rafi_1st.Cpu.InterruptController.refresh rafi_1st.Decoder.Fields.sign_extend
    rafi_1st.BitField.set_member rafi_1st.Cpu.InterruptController.update_timer
one_cycle = refl

Reach-IsWellFormed_example : IsWellFormed after_one.machine
Reach-IsWellFormed_example =
    Reach-IsWellFormed board (next here (cycle false one_cycle)) start-IsWellFormed

-- wfi in a user program is illegal.
abbrev user_machine : Machine (Unit {0})
user_machine = record (start.machine) { csr = record (start.machine.csr) { priv = user } }

abbrev wait : Op
wait = Ops.op rv64i wfi (operand_i 0x105 0 0 0)

abbrev refusal : Trap
refusal = make_illegal_instruction_exception 0x1000 0x10500073

abbrev after_refusal : Machine (Unit {0})
after_refusal = ends_in user_machine (execute board wait 0x1000 0x10500073 user_machine)

refused : pre_check_trap board wait 0x1000 0x10500073 user_machine ≡ ok (some refusal, user_machine)
unfolding pre_check_trap rafi_1st.Cpu.Executor.Check.System.pre_check_trap_wfi
    rafi_1st.Cpu.Executor.Steps.get_csr
refused = refl

trap_taken : execute board wait 0x1000 0x10500073 user_machine ≡ ok (tt, after_refusal)
unfolding execute rafi_1st.Cpu.Executor.Machine.◌>>=◌ pre_check_trap
    rafi_1st.Cpu.Executor.Check.System.pre_check_trap_wfi rafi_1st.Cpu.Executor.Steps.get_csr
    rafi_1st.Cpu.Executor.MemorySteps.raise_exception rafi_1st.Cpu.TrapProcessor.process_trap_enter
    rafi_1st.Cpu.Csr.Read.read_uint64 rafi_1st.Cpu.Csr.Read.read_machine_mode_register
trap_taken = refl

execute-IsTrapped_example :
    IsTrapped user_machine after_refusal (process_exception board.xlen user_machine.csr [] refusal)
execute-IsTrapped_example =
    execute-IsTrapped board wait 0x1000 0x10500073 refusal user_machine user_machine after_refusal
      tt refused trap_taken

-- The timer asks for an interrupt that is enabled.
abbrev waiting : Processor (Unit {0})
waiting = record start {
  machine = record (start.machine) {
    csr = record (start.machine.csr) { status = 8; interrupt_enable = 0x80 };
  };
}

bit_on : test_bit 8 3 ≡ true
unfolding get_member
bit_on = sym (get_member-bit 8 3)

ready :
    first_ready 0x80
      (update_csr (Csr.process_cycle waiting.machine.csr) true).interrupt_pending
      by_priority
    ≡ some machine_timer
unfolding select_interrupt get_member update_csr InterruptController.update_external
    InterruptController.refresh rafi_1st.BitField.set_member InterruptController.update_timer
    Csr.process_cycle rafi_1st.Cpu.Csr.Read.read_uint32 rafi_1st.Cpu.Csr.Read.read_uint64
    rafi_1st.Cpu.Csr.Read.read_machine_mode_register
ready =
    sym (
      select_interrupt-eq-first_ready 0x80
        (update_csr (Csr.process_cycle waiting.machine.csr) true).interrupt_pending)
    ∙ refl

process_cycle-HasTaken_example :
    HasTaken board waiting machine_timer (delegated_level 0 0 7) (process_cycle board true waiting)
process_cycle-HasTaken_example =
    process_cycle-HasTaken board true waiting machine_timer (omega arith) (λ same. cc) bit_on ready
