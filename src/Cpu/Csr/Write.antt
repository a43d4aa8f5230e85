-- ===== src/Cpu/Csr/Write.antt =====
-- src/bin/rafi-emu/cpu/Csr.cpp: writing a register by its address. An address that no case names
-- prints a message, which is not modelled, and nothing is written.
use rafi_1st.Base.{ℕ, ◌%◌, ◌^◌, ◌&&◌, List, bit_and, ltb, leb, if◌then◌else◌, switch, [], ◌∷◌}
use rafi_1st.BitField.{set_member, set_with_mask}
use rafi_1st.Util.{set_high32, set_low32}
use rafi_1st.RvTypes.{SupportedXlen, rv32, rv64}
use rafi_1st.RvCsr.Addr
use rafi_1st.RvCsr.Status
use rafi_1st.RvCsr.Fcsr
use rafi_1st.RvCsr.Ie
use rafi_1st.RvCsr.Ip
use rafi_1st.Cpu.Csr.{Csr, write_status}
use rafi_1st.Cpu.Csr.Read.{
  is_user_mode_register, is_supervisor_mode_register, is_machine_mode_register,
  supervisor_status_mask,
}

-- The interrupt bits of `value` that `mask` selects.
abbrev pub write_enables : Csr → ℕ → ℕ → Csr
write_enables c value mask = record c {
  interrupt_enable = set_with_mask 64 c.interrupt_enable value mask;
}

abbrev pub write_pendings : Csr → ℕ → ℕ → Csr
write_pendings c value mask = record c {
  interrupt_pending = set_with_mask 64 c.interrupt_pending value mask;
}

write_machine_counter : Csr → ℕ → ℕ → SupportedXlen → Csr
write_machine_counter c addr value rv32 =
    switch addr
      ((Addr.mcycle, record c { cycle_counter = set_low32 c.cycle_counter value })
        ∷ (
          Addr.minstret,
          record c { instruction_retired_counter = set_low32 c.instruction_retired_counter value },
        )
        ∷ (Addr.mcycleh, record c { cycle_counter = set_high32 c.cycle_counter value })
        ∷ (
          Addr.minstreth,
          record c { instruction_retired_counter = set_high32 c.instruction_retired_counter value },
        )
        ∷ [])
      c
write_machine_counter c addr value rv64 =
    switch addr
      ((Addr.mcycle, record c { cycle_counter = value })
        ∷ (Addr.minstret, record c { instruction_retired_counter = value })
        ∷ [])
      c

unfoldable pub write_machine_mode_register : Csr → ℕ → ℕ → Csr
unfolding write_machine_counter
write_machine_mode_register c addr value =
    if leb Addr.pmpaddr_begin addr && ltb addr Addr.pmpaddr_end
    then c
    else switch addr
        ((Addr.mhartid, c)
          ∷ (Addr.misa, c)
          ∷ (Addr.mstatus, write_status c value)
          ∷ (Addr.medeleg, record c { machine_exception_delegation = value })
          ∷ (Addr.mideleg, record c { machine_interrupt_delegation = value })
          ∷ (Addr.mie, write_enables c value Ie.machine_mask)
          ∷ (Addr.mcounteren, record c { machine_counter_enable = value })
          ∷ (Addr.mtvec, record c { machine_trap_vector = value })
          ∷ (Addr.mscratch, record c { machine_scratch = value })
          ∷ (Addr.mepc, record c { machine_exception_pc = value })
          ∷ (Addr.mcause, record c { machine_cause = value })
          ∷ (Addr.mtval, record c { machine_trap_value = value })
          ∷ (Addr.mip, write_pendings c value (bit_and Ip.machine_mask Ip.write_mask))
          ∷ (Addr.pmpcfg0, c)
          ∷ (Addr.pmpcfg1, c)
          ∷ (Addr.pmpcfg2, c)
          ∷ (Addr.pmpcfg3, c)
          ∷ [])
        (write_machine_counter c addr value c.xlen)

abbrev pub supervisor_mode_cases : Csr → ℕ → List (ℕ × Csr)
supervisor_mode_cases c value =
    (Addr.sstatus, write_status c (bit_and value (supervisor_status_mask c.xlen)))
    ∷ (Addr.sedeleg, record c { supervisor_exception_delegation = value })
    ∷ (Addr.sideleg, record c { supervisor_interrupt_delegation = value })
    ∷ (Addr.sie, write_enables c value Ie.supervisor_mask)
    ∷ (Addr.stvec, record c { supervisor_trap_vector = value })
    ∷ (Addr.scounteren, record c { supervisor_counter_enable = value })
    ∷ (Addr.sscratch, record c { supervisor_scratch = value })
    ∷ (Addr.sepc, record c { supervisor_exception_pc = value })
    ∷ (Addr.scause, record c { supervisor_cause = value })
    ∷ (Addr.stval, record c { supervisor_trap_value = value })
    ∷ (Addr.sip, write_pendings c value (bit_and Ip.write_mask Ip.supervisor_mask))
    ∷ (Addr.satp, record c { supervisor_address_translation_protection = value })
    ∷ []

unfoldable pub write_supervisor_mode_register : Csr → ℕ → ℕ → Csr
write_supervisor_mode_register c addr value = switch addr (supervisor_mode_cases c value) c

-- On RV32 `timeh` writes the cycle counter.
unfoldable pub write_user_counter : Csr → ℕ → ℕ → SupportedXlen → Csr
write_user_counter c addr value rv32 =
    switch addr
      ((Addr.cycle, record c { cycle_counter = set_low32 c.cycle_counter value })
        ∷ (Addr.time, record c { time_counter = set_low32 c.time_counter value })
        ∷ (
          Addr.instret,
          record c { instruction_retired_counter = set_low32 c.instruction_retired_counter value },
        )
        ∷ (Addr.cycleh, record c { cycle_counter = set_high32 c.cycle_counter value })
        ∷ (Addr.timeh, record c { cycle_counter = set_high32 c.cycle_counter value })
        ∷ (
          Addr.instreth,
          record c { instruction_retired_counter = set_high32 c.instruction_retired_counter value },
        )
        ∷ [])
      c
write_user_counter c addr value rv64 =
    switch addr
      ((Addr.cycle, record c { cycle_counter = value })
        ∷ (Addr.time, record c { time_counter = value })
        ∷ (Addr.instret, record c { instruction_retired_counter = value })
        ∷ [])
      c

-- `m_FpCsr` is a `BitField32`, written with the value cut to 32 bits.
abbrev pub user_mode_cases : Csr → ℕ → List (ℕ × Csr)
user_mode_cases c value =
    (Addr.ustatus, write_status c (bit_and value Status.user_mask))
    ∷ (Addr.fflags, record c { fp_csr = set_member 32 c.fp_csr Fcsr.ae (value % 2 ^ 32) })
    ∷ (Addr.frm, record c { fp_csr = set_member 32 c.fp_csr Fcsr.rm (value % 2 ^ 32) })
    ∷ (Addr.fcsr, record c { fp_csr = set_with_mask 32 c.fp_csr (value % 2 ^ 32) Fcsr.user_mask })
    ∷ (Addr.uie, write_enables c value Ie.user_mask)
    ∷ (Addr.utvec, record c { user_trap_vector = value })
    ∷ (Addr.uscratch, record c { user_scratch = value })
    ∷ (Addr.uepc, record c { user_exception_pc = value })
    ∷ (Addr.ucause, record c { user_cause = value })
    ∷ (Addr.utval, record c { user_trap_value = value })
    ∷ (Addr.uip, write_pendings c value (bit_and Ip.write_mask Ip.user_mask))
    ∷ []

unfoldable pub write_user_mode_register : Csr → ℕ → ℕ → Csr
unfolding write_user_counter
write_user_mode_register c addr value =
    switch addr (user_mode_cases c value) (write_user_counter c addr value c.xlen)

unfoldable pub write_uint64 : Csr → ℕ → ℕ → Csr
write_uint64 c addr value =
    if is_machine_mode_register addr
    then write_machine_mode_register c addr value
    else if is_supervisor_mode_register addr
    then write_supervisor_mode_register c addr value
    else if is_user_mode_register addr
    then write_user_mode_register c addr value
    else c

-- The value is a `uint32_t`.
unfoldable pub write_uint32 : Csr → ℕ → ℕ → Csr
write_uint32 c addr value = write_uint64 c addr (value % 2 ^ 32)
