-- ===== src/Cpu/Csr.antt =====
-- src/bin/rafi-emu/cpu/Csr.h and Csr.cpp: the control and status registers. Here: the state, the
-- constructor and the direct accessors. A value of type `uint64_t` is a number below 2 ^ 64.
pub mod Read
pub mod Write
pub mod Access
pub mod Counters
pub mod Fields
pub mod Sstatus
pub mod SstatusBits
pub mod Permission
pub mod Isolation
use rafi_1st.Base.{
  ℕ, ◌+◌, ◌%◌, ◌^◌, ◌||◌, Result, ok, throw, ◌>>=◌, ◌==◌, if◌then◌else◌, List, [], ◌∷◌,
}
use rafi_1st.BitField.{Member, get_member, set_member, get_with_mask, set_with_mask}
use rafi_1st.RvTypes.{Xlen, SupportedXlen, rv32, rv64, supported_xlen, PrivilegeLevel, machine}
use rafi_1st.RvCsr.Misa
use rafi_1st.RvCsr.Status

pub record Csr : Type 0 where
  pub xlen : SupportedXlen
  pub isa : ℕ
  pub fp_csr : ℕ
  pub status : ℕ
  pub machine_trap_vector : ℕ
  pub supervisor_trap_vector : ℕ
  pub user_trap_vector : ℕ
  pub machine_exception_delegation : ℕ
  pub supervisor_exception_delegation : ℕ
  pub machine_interrupt_delegation : ℕ
  pub supervisor_interrupt_delegation : ℕ
  pub machine_counter_enable : ℕ
  pub supervisor_counter_enable : ℕ
  pub machine_scratch : ℕ
  pub supervisor_scratch : ℕ
  pub user_scratch : ℕ
  pub machine_exception_pc : ℕ
  pub supervisor_exception_pc : ℕ
  pub user_exception_pc : ℕ
  pub machine_cause : ℕ
  pub supervisor_cause : ℕ
  pub user_cause : ℕ
  pub machine_trap_value : ℕ
  pub supervisor_trap_value : ℕ
  pub user_trap_value : ℕ
  pub interrupt_enable : ℕ
  pub interrupt_pending : ℕ
  pub supervisor_address_translation_protection : ℕ
  pub cycle_counter : ℕ
  pub time_counter : ℕ
  pub instruction_retired_counter : ℕ
  pub pc : ℕ
  pub priv : PrivilegeLevel

abbrev set_letters : ℕ → List Member → ℕ
set_letters isa [] = isa
set_letters isa (m ∷ ms) = set_letters (set_member 64 isa m 1) ms

abbrev base_isa : ℕ
base_isa =
    set_letters 0 (Misa.i ∷ Misa.m ∷ Misa.a ∷ Misa.f ∷ Misa.d ∷ Misa.c ∷ Misa.u ∷ Misa.s ∷ [])

abbrev initial_isa : SupportedXlen → ℕ
initial_isa rv32 = set_member 64 base_isa Misa.mxl_rv32 1
initial_isa rv64 = set_member 64 base_isa Misa.mxl_rv64 2

-- The fields that the class initialises to 0, and those that the constructor sets.
abbrev pub initial_csr : SupportedXlen → ℕ → Csr
initial_csr xlen pc = record {
  xlen = xlen;
  isa = initial_isa xlen;
  fp_csr = 0;
  status = 0;
  machine_trap_vector = 0;
  supervisor_trap_vector = 0;
  user_trap_vector = 0;
  machine_exception_delegation = 0;
  supervisor_exception_delegation = 0;
  machine_interrupt_delegation = 0;
  supervisor_interrupt_delegation = 0;
  machine_counter_enable = 0;
  supervisor_counter_enable = 0;
  machine_scratch = 0;
  supervisor_scratch = 0;
  user_scratch = 0;
  machine_exception_pc = 0;
  supervisor_exception_pc = 0;
  user_exception_pc = 0;
  machine_cause = 0;
  supervisor_cause = 0;
  user_cause = 0;
  machine_trap_value = 0;
  supervisor_trap_value = 0;
  user_trap_value = 0;
  interrupt_enable = 0;
  interrupt_pending = 0;
  supervisor_address_translation_protection = 0;
  cycle_counter = 0;
  time_counter = 0;
  instruction_retired_counter = 0;
  pc = pc;
  priv = machine;
}

unfoldable pub make_csr : Xlen → ℕ → Result Csr
make_csr xlen pc = do supported ← supported_xlen xlen; ok (initial_csr supported pc)

-- GetPc and GetPriv are the fields.
abbrev pub set_pc : Csr → ℕ → Csr
set_pc c value = record c { pc = value }

abbrev pub set_priv : Csr → PrivilegeLevel → Csr
set_priv c level = record c { priv = level }

unfoldable pub process_cycle : Csr → Csr
process_cycle c = record c {
  cycle_counter = (c.cycle_counter + 1) % 2 ^ 64;
  time_counter = (c.time_counter + 1) % 2 ^ 64;
  instruction_retired_counter = (c.instruction_retired_counter + 1) % 2 ^ 64;
}

abbrev pub sd : SupportedXlen → Member
sd rv32 = Status.sd_rv32
sd rv64 = Status.sd_rv64

unfoldable pub read_status : Csr → ℕ
read_status c =
    if get_member c.status Status.xs == 3 || get_member c.status Status.fs == 3
    then set_member 64 c.status (sd c.xlen) 1
    else c.status

-- `xstatus_t` is built from a `uint32_t`, so the value is cut to 32 bits on the way in.
abbrev pub to_xstatus : ℕ → ℕ
to_xstatus value = value % 2 ^ 32

unfoldable pub write_status : Csr → ℕ → Csr
write_status c value = record c {
  status = set_with_mask 64 c.status (to_xstatus value) Status.write_mask;
}

abbrev pub write_fp_csr : Csr → ℕ → Csr
write_fp_csr c value = record c { fp_csr = value }

abbrev pub write_interrupt_pending : Csr → ℕ → Csr
write_interrupt_pending c value = record c { interrupt_pending = value }

abbrev pub write_time : Csr → ℕ → Csr
write_time c value = record c { time_counter = value }
