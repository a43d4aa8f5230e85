-- ===== src/Cpu/TrapProcessor.antt =====
-- src/bin/rafi-emu/cpu/TrapProcessor.cpp: entering and leaving a trap. Each function takes the
-- registers and the event list, and returns both.
pub mod Stack
pub mod Machine
pub mod Supervisor
pub mod Entry
pub mod Delegation
use rafi_1st.Base.{
  ℕ, ◌+◌, ◌*◌, ◌%◌, ◌^◌, bit_or, bit_and, Bool, true, false, not, ◌&&◌, ◌==◌, if◌then◌else◌, List,
  Result, ok, throw, ◌>>=◌, not_implemented,
}
use rafi_1st.BitField.{mask, get_member, set_member, get_with_mask}
use rafi_1st.RvTypes.{
  SupportedXlen, rv32, rv64, PrivilegeLevel, user, supervisor, reserved, machine, priv_code,
  priv_of_code, interrupt, exception, return, InterruptType, interrupt_code, exception_code,
}
use rafi_1st.RvCsr.Addr
use rafi_1st.RvCsr.Status
use rafi_1st.RvCsr.Tvec
use rafi_1st.Trace.{Event, trap, emplace_back}
use rafi_1st.Cpu.Trap.{Trap}
use rafi_1st.Cpu.Csr.{Csr, set_pc, set_priv, to_xstatus}
use rafi_1st.Cpu.Csr.Read.{read_uint64}
use rafi_1st.Cpu.Csr.Write.{write_uint64}

abbrev pub Outcome : Type 0
Outcome = Result (Csr × List Event)

-- `1ull << 31` or `1ull << 63` marks an interrupt.
abbrev pub interrupt_flag : SupportedXlen → ℕ
interrupt_flag rv32 = 2 ^ 31
interrupt_flag rv64 = 2 ^ 63

abbrev pub cause_of : SupportedXlen → Bool → ℕ → ℕ
cause_of xlen is_interrupt code = bit_or (if is_interrupt then interrupt_flag xlen else 0) code

-- The `case` of the next level: what is saved, and the trap vector's address.
unfoldable pub save_machine : Csr → PrivilegeLevel → ℕ → ℕ → ℕ → Csr
save_machine c previous cause pc trap_value =
    let s0 = to_xstatus (read_uint64 c Addr.mstatus) in
    let s1 = set_member 64 s0 Status.mpie (get_member s0 Status.mie) in
    let s2 = set_member 64 s1 Status.mie 0 in
    let s3 = set_member 64 s2 Status.mpp (priv_code previous) in
    let c1 = write_uint64 c Addr.mstatus s3 in
    let c2 = write_uint64 c1 Addr.mcause cause in
    let c3 = write_uint64 c2 Addr.mepc pc in write_uint64 c3 Addr.mtval trap_value

unfoldable pub save_supervisor : Csr → PrivilegeLevel → ℕ → ℕ → ℕ → Csr
save_supervisor c previous cause pc trap_value =
    let s0 = to_xstatus (read_uint64 c Addr.sstatus) in
    let s1 = set_member 64 s0 Status.spie (get_member s0 Status.sie) in
    let s2 = set_member 64 s1 Status.sie 0 in
    let s3 = set_member 64 s2 Status.spp (priv_code previous) in
    let c1 = write_uint64 c Addr.sstatus s3 in
    let c2 = write_uint64 c1 Addr.scause cause in
    let c3 = write_uint64 c2 Addr.sepc pc in write_uint64 c3 Addr.stval trap_value

unfoldable pub save_user : Csr → ℕ → ℕ → ℕ → Csr
save_user c cause pc trap_value =
    let s0 = to_xstatus (read_uint64 c Addr.ustatus) in
    let s1 = set_member 64 s0 Status.upie (get_member s0 Status.uie) in
    let s2 = set_member 64 s1 Status.uie 0 in
    let c1 = write_uint64 c Addr.ustatus s2 in
    let c2 = write_uint64 c1 Addr.ucause cause in
    let c3 = write_uint64 c2 Addr.uepc pc in write_uint64 c3 Addr.utval trap_value

abbrev pub base_mask : SupportedXlen → ℕ
base_mask rv32 = mask Tvec.base_rv32
base_mask rv64 = mask Tvec.base_rv64

-- Where the vector sends the trap. `Vectored` is mode 1.
unfoldable pub target_pc : SupportedXlen → ℕ → Bool → ℕ → ℕ
target_pc xlen vector is_interrupt code =
    let base = get_with_mask vector (base_mask xlen) in
    if is_interrupt && get_member vector Tvec.mode == 1
    then (base + code * 4 % 2 ^ 32) % 2 ^ 64
    else base

-- The jump to the vector, and the event. `from` is read after `SetPriv`.
abbrev pub enter_vector :
    SupportedXlen → Csr → List Event → Bool → ℕ → ℕ → PrivilegeLevel → ℕ → Csr × List Event
enter_vector xlen c events is_interrupt code trap_value next vector = (
  set_pc c (target_pc xlen vector is_interrupt code),
  emplace_back events (
      trap (record {
        trap_type = if is_interrupt then interrupt else exception;
        from = c.priv;
        to = next;
        cause = code;
        trap_value = trap_value;
      })),
)

unfoldable pub process_trap_enter :
    SupportedXlen → Csr → List Event → Bool → ℕ → ℕ → ℕ → PrivilegeLevel → Outcome
process_trap_enter xlen c events is_interrupt code trap_value pc machine =
    let cause = cause_of xlen is_interrupt code in
    let saved = save_machine (set_priv c machine) c.priv cause pc trap_value in
    let vector = read_uint64 saved Addr.mtvec in
    ok (enter_vector xlen saved events is_interrupt code trap_value machine vector)
process_trap_enter xlen c events is_interrupt code trap_value pc supervisor =
    let cause = cause_of xlen is_interrupt code in
    let saved = save_supervisor (set_priv c supervisor) c.priv cause pc trap_value in
    let vector = read_uint64 saved Addr.stvec in
    ok (enter_vector xlen saved events is_interrupt code trap_value supervisor vector)
process_trap_enter xlen c events is_interrupt code trap_value pc user =
    let cause = cause_of xlen is_interrupt code in
    let saved = save_user (set_priv c user) cause pc trap_value in
    let vector = read_uint64 saved Addr.utvec in
    ok (enter_vector xlen saved events is_interrupt code trap_value user vector)
process_trap_enter xlen c events is_interrupt code trap_value pc reserved = throw not_implemented

-- Is bit `code` of the register at `addr` set? The mask `1 << code` is an `int`; the codes are
-- below 16.
abbrev pub delegates : Csr → ℕ → ℕ → Bool
delegates c addr code = not (bit_and (read_uint64 c addr) (2 ^ code) == 0)

abbrev pub next_priv : Csr → ℕ → ℕ → ℕ → PrivilegeLevel
next_priv c first second code =
    if delegates c first code
    then (if delegates c second code then user else supervisor)
    else machine

unfoldable pub process_exception : SupportedXlen → Csr → List Event → Trap → Outcome
process_exception xlen c events t =
    let code = exception_code t.type in
    let next = next_priv c Addr.medeleg Addr.sedeleg code in
    process_trap_enter xlen c events false code t.trap_value t.pc next

unfoldable pub process_interrupt : SupportedXlen → Csr → List Event → InterruptType → ℕ → Outcome
process_interrupt xlen c events type pc =
    let code = interrupt_code type in
    let next = next_priv c Addr.mideleg Addr.sideleg code in
    process_trap_enter xlen c events true code 0 pc next

abbrev pub leave : Csr → List Event → PrivilegeLevel → Csr × List Event
leave c events next = (
  set_priv c next,
  emplace_back events
      (trap (record { trap_type = return; from = c.priv; to = next; cause = 0; trap_value = 0 })),
)

unfoldable pub return_machine : Csr → Csr
return_machine c =
    let s0 = to_xstatus (read_uint64 c Addr.mstatus) in
    let s1 = set_member 64 s0 Status.mpp 0 in
    let s2 = set_member 64 s1 Status.mie (get_member s0 Status.mpie) in
    set_pc (write_uint64 c Addr.mstatus s2) (read_uint64 c Addr.mepc)

unfoldable pub return_supervisor : Csr → Csr
return_supervisor c =
    let s0 = to_xstatus (read_uint64 c Addr.sstatus) in
    let s1 = set_member 64 s0 Status.spp 0 in
    let s2 = set_member 64 s1 Status.sie (get_member s0 Status.spie) in
    set_pc (write_uint64 c Addr.sstatus s2) (read_uint64 c Addr.sepc)

unfoldable pub process_trap_return : Csr → List Event → PrivilegeLevel → Outcome
process_trap_return c events machine =
    let previous = get_member (to_xstatus (read_uint64 c Addr.mstatus)) Status.mpp in
    ok (leave (return_machine c) events (priv_of_code previous))
process_trap_return c events supervisor =
    let previous = get_member (to_xstatus (read_uint64 c Addr.sstatus)) Status.spp in
    ok (leave (return_supervisor c) events (priv_of_code previous))
process_trap_return c events user = throw not_implemented
process_trap_return c events reserved = throw not_implemented
