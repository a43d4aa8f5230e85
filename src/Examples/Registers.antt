-- ===== src/Examples/Registers.antt =====
-- The control and status registers of a processor that has just started, and that has entered
-- user or supervisor mode (src/bin/rafi-emu/cpu/Csr.cpp).
use rafi_1st.Base.{
  ◌^◌, ◌%◌, ◌≡◌, ◌↔◌, ◌⊎◌, ◌&&◌, ◌||◌, ◌==◌, refl, false, true, arith, none, some, ok,
}
use rafi_1st.Base.Bits.{test_bit}
use rafi_1st.BitField.{get_member, set_member}
use rafi_1st.BitField.Laws.{get_member-set_member}
use rafi_1st.RvTypes.{rv64, user, supervisor}
use rafi_1st.RvCsr.Addr
use rafi_1st.RvCsr.Status
use rafi_1st.Cpu.Trap.{make_illegal_instruction_exception}
use rafi_1st.Cpu.Csr.{Csr, initial_csr}
use rafi_1st.Cpu.Csr.Read.{read_uint64}
use rafi_1st.Cpu.Csr.Write.{write_uint64}
use rafi_1st.Cpu.Csr.Access.{check_trap, check_counters, check_time}
use rafi_1st.Cpu.Csr.Permission.{IsPermitted, check_trap-none_iff, check_trap_refusal}
use rafi_1st.Cpu.Csr.Isolation.{SameMachineState, write_uint64-SameMachineState}
use rafi_1st.Cpu.Csr.SstatusBits.{is_shown, is_dirty, sd_place, test_bit-read-sstatus}
use rafi_1st.Cpu.Csr.Sstatus.{
  write-sstatus, write-sstatus_clears, sie-IsSupervisorField, mie-IsMachineField,
}

abbrev started : Csr
started = initial_csr rv64 0x80000000

-- A supervisor whose machine mode has enabled interrupts
abbrev in_supervisor : Csr
in_supervisor = record started { priv = supervisor; status = 0xa }

get_member-set_member_example :
    get_member (set_member 64 0xff (Status.mpp) 5) Status.mpp ≡ 5 % 2 ^ 2
get_member-set_member_example =
    get_member-set_member 64 0xff Status.mpp 5 (omega arith) (omega arith)

-- A user whose machine mode has opened the cycle counter, and whose supervisor has not.
abbrev in_user : Csr
in_user = record started { priv = user; machine_counter_enable = 1 }

check_trap-none_iff_example :
    (check_trap in_user Addr.cycle false 0x1000 0x73 ≡ ok none)
    ↔ IsPermitted in_user Addr.cycle false
check_trap-none_iff_example =
    check_trap-none_iff in_user Addr.cycle false 0x1000 0x73 (omega arith) (λ e. cc)

check_trap_refusal_example :
    (check_trap in_supervisor Addr.mstatus false 0x1000 0x73 ≡ ok none)
    ⊎ ((check_trap in_supervisor Addr.mstatus false 0x1000 0x73
          ≡ ok (some (make_illegal_instruction_exception 0x1000 0x73)))
        ⊎ ((Addr.mstatus ≡ Addr.time)
            × (check_trap in_supervisor Addr.mstatus false 0x1000 0x73
                ≡ ok (some (make_illegal_instruction_exception 0x1000 0)))))
check_trap_refusal_example =
    check_trap_refusal in_supervisor Addr.mstatus false 0x1000 0x73 (omega arith)

sscratch_allowed : check_trap in_supervisor Addr.sscratch true 0x1000 0x73 ≡ ok none
unfolding check_trap check_counters check_time get_member
sscratch_allowed = refl

write_uint64-SameMachineState_example :
    SameMachineState in_supervisor (write_uint64 in_supervisor Addr.sscratch 42)
write_uint64-SameMachineState_example =
    write_uint64-SameMachineState in_supervisor Addr.sscratch 42 0x1000 0x73 (omega arith)
      (omega arith) (omega arith) (omega arith) sscratch_allowed

-- The dirty bit of a supervisor whose floating-point unit is dirty: FS is set, and SD is not
-- stored.
abbrev float_dirty : Csr
float_dirty = record started { priv = supervisor; status = 0x6000 }

test_bit-read-sstatus_example :
    test_bit (read_uint64 float_dirty Addr.sstatus) 63
    ≡ (is_shown rv64 63 && (test_bit 0x6000 63 || (is_dirty 0x6000 && 63 == sd_place rv64)))
test_bit-read-sstatus_example = test_bit-read-sstatus float_dirty 63 (omega arith)

write-sstatus_example :
    get_member (write_uint64 in_supervisor Addr.sstatus 2).status Status.sie
    ≡ get_member 2 Status.sie
write-sstatus_example = write-sstatus in_supervisor 2 Status.sie (omega arith) sie-IsSupervisorField

-- Machine mode had its interrupts enabled.
machine_enabled : get_member in_supervisor.status Status.mie ≡ 1
unfolding get_member
machine_enabled = refl

write-sstatus_clears_example :
    get_member (write_uint64 in_supervisor Addr.sstatus 2).status Status.mie ≡ 0
write-sstatus_clears_example =
    write-sstatus_clears in_supervisor 2 Status.mie (omega arith) mie-IsMachineField
