-- ===== src/Cpu/Csr/Read.antt =====
-- src/bin/rafi-emu/cpu/Csr.cpp: reading a register by its address. An address that no case names
-- prints a message, which is not modelled, and reads as 0.
use rafi_1st.Base.{ℕ, ◌/◌, ◌%◌, ◌^◌, Bool, ◌&&◌, ltb, leb, ◌==◌, if◌then◌else◌, switch, [], ◌∷◌}
use rafi_1st.BitField.{get_member, get_with_mask}
use rafi_1st.Util.{get_high32, get_low32}
use rafi_1st.RvTypes.{SupportedXlen, rv32, rv64}
use rafi_1st.RvCsr.Addr
use rafi_1st.RvCsr.Status
use rafi_1st.RvCsr.Fcsr
use rafi_1st.RvCsr.Ie
use rafi_1st.RvCsr.Ip
use rafi_1st.Cpu.Csr.{Csr, read_status}

abbrev pub is_user_mode_register : ℕ → Bool
is_user_mode_register addr = addr / 2 ^ 8 % 4 == 0

abbrev pub is_supervisor_mode_register : ℕ → Bool
is_supervisor_mode_register addr = addr / 2 ^ 8 % 4 == 1

abbrev pub is_reserved_mode_register : ℕ → Bool
is_reserved_mode_register addr = addr / 2 ^ 8 % 4 == 2

abbrev pub is_machine_mode_register : ℕ → Bool
is_machine_mode_register addr = addr / 2 ^ 8 % 4 == 3

-- The `default` case of the machine registers, by the base.
read_machine_counter : Csr → ℕ → SupportedXlen → ℕ
read_machine_counter c addr rv32 =
    switch addr
      ((Addr.mcycle, get_low32 c.cycle_counter)
        ∷ (Addr.minstret, get_low32 c.instruction_retired_counter)
        ∷ (Addr.mcycleh, get_high32 c.cycle_counter)
        ∷ (Addr.minstreth, get_high32 c.instruction_retired_counter)
        ∷ [])
      0
read_machine_counter c addr rv64 =
    switch addr
      ((Addr.mcycle, c.cycle_counter) ∷ (Addr.minstret, c.instruction_retired_counter) ∷ []) 0

unfoldable pub read_machine_mode_register : Csr → ℕ → ℕ
unfolding read_machine_counter
read_machine_mode_register c addr =
    if leb Addr.pmpaddr_begin addr && ltb addr Addr.pmpaddr_end
    then 0
    else switch addr
        ((Addr.mstatus, read_status c)
          ∷ (Addr.misa, c.isa)
          ∷ (Addr.medeleg, c.machine_exception_delegation)
          ∷ (Addr.mideleg, c.machine_interrupt_delegation)
          ∷ (Addr.mie, get_with_mask c.interrupt_enable Ie.machine_mask)
          ∷ (Addr.mtvec, c.machine_trap_vector)
          ∷ (Addr.mcounteren, c.machine_counter_enable)
          ∷ (Addr.mscratch, c.machine_scratch)
          ∷ (Addr.mepc, c.machine_exception_pc)
          ∷ (Addr.mcause, c.machine_cause)
          ∷ (Addr.mtval, c.machine_trap_value)
          ∷ (Addr.mip, get_with_mask c.interrupt_pending Ip.machine_mask)
          ∷ (Addr.pmpcfg0, 0)
          ∷ (Addr.pmpcfg1, 0)
          ∷ (Addr.pmpcfg2, 0)
          ∷ (Addr.pmpcfg3, 0)
          ∷ (Addr.mvendorid, 0)
          ∷ (Addr.marchid, 0)
          ∷ (Addr.mimpid, 0)
          ∷ (Addr.mhartid, 0)
          ∷ [])
        (read_machine_counter c addr c.xlen)

abbrev pub supervisor_status_mask : SupportedXlen → ℕ
supervisor_status_mask rv32 = Status.supervisor_mask_rv32
supervisor_status_mask rv64 = Status.supervisor_mask_rv64

unfoldable pub read_supervisor_mode_register : Csr → ℕ → ℕ
read_supervisor_mode_register c addr =
    switch addr
      ((Addr.sstatus, get_with_mask (read_status c) (supervisor_status_mask c.xlen))
        ∷ (Addr.sedeleg, c.supervisor_exception_delegation)
        ∷ (Addr.sideleg, c.supervisor_interrupt_delegation)
        ∷ (Addr.sie, get_with_mask c.interrupt_enable Ie.supervisor_mask)
        ∷ (Addr.stvec, c.supervisor_trap_vector)
        ∷ (Addr.scounteren, c.supervisor_counter_enable)
        ∷ (Addr.sscratch, c.supervisor_scratch)
        ∷ (Addr.sepc, c.supervisor_exception_pc)
        ∷ (Addr.scause, c.supervisor_cause)
        ∷ (Addr.stval, c.supervisor_trap_value)
        ∷ (Addr.sip, get_with_mask c.interrupt_pending Ip.supervisor_mask)
        ∷ (Addr.satp, c.supervisor_address_translation_protection)
        ∷ [])
      0

-- The `default` case of the user registers, by the base. On RV32 `time` reads the cycle counter.
read_user_counter : Csr → ℕ → SupportedXlen → ℕ
read_user_counter c addr rv32 =
    switch addr
      ((Addr.cycle, get_low32 c.cycle_counter)
        ∷ (Addr.time, get_low32 c.cycle_counter)
        ∷ (Addr.instret, get_low32 c.instruction_retired_counter)
        ∷ (Addr.cycleh, get_high32 c.cycle_counter)
        ∷ (Addr.timeh, get_high32 c.time_counter)
        ∷ (Addr.instreth, get_high32 c.instruction_retired_counter)
        ∷ [])
      0
read_user_counter c addr rv64 =
    switch addr
      ((Addr.cycle, c.cycle_counter)
        ∷ (Addr.time, c.time_counter)
        ∷ (Addr.instret, c.instruction_retired_counter)
        ∷ [])
      0

unfoldable pub read_user_mode_register : Csr → ℕ → ℕ
unfolding read_user_counter
read_user_mode_register c addr =
    switch addr
      ((Addr.ustatus, get_with_mask (read_status c) Status.user_mask)
        ∷ (Addr.fflags, get_member c.fp_csr Fcsr.ae)
        ∷ (Addr.frm, get_member c.fp_csr Fcsr.rm)
        ∷ (Addr.fcsr, get_with_mask c.fp_csr Fcsr.user_mask)
        ∷ (Addr.uie, get_with_mask c.interrupt_enable Ie.user_mask)
        ∷ (Addr.utvec, c.user_trap_vector)
        ∷ (Addr.uscratch, c.user_scratch)
        ∷ (Addr.uepc, c.user_exception_pc)
        ∷ (Addr.ucause, c.user_cause)
        ∷ (Addr.utval, c.user_trap_value)
        ∷ (Addr.uip, get_with_mask c.interrupt_pending Ip.user_mask)
        ∷ [])
      (read_user_counter c addr c.xlen)

unfoldable pub read_uint64 : Csr → ℕ → ℕ
read_uint64 c addr =
    if is_machine_mode_register addr
    then read_machine_mode_register c addr
    else if is_supervisor_mode_register addr
    then read_supervisor_mode_register c addr
    else if is_user_mode_register addr
    then read_user_mode_register c addr
    else 0

unfoldable pub read_uint32 : Csr → ℕ → ℕ
read_uint32 c addr = read_uint64 c addr % 2 ^ 32
