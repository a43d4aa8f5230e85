-- ===== src/Cpu/TrapProcessor/Entry.antt =====
-- What every trap does on the way in, at the level that takes it.
use rafi_1st.Base.{ℕ, ◌^◌, ◌<◌, ◌≡◌, refl, ◌∙◌, bit_and, Bool, List, ok, arith}
use rafi_1st.BitField.{Member, get_member, set_member, get_with_mask}
use rafi_1st.BitField.Laws.{get_member-set_member, set_member-lt}
use rafi_1st.BitField.Masks.{get_member-get_with_mask}
use rafi_1st.RvTypes.{SupportedXlen, PrivilegeLevel, user, supervisor, reserved, machine, priv_code}
use rafi_1st.RvCsr.Addr
use rafi_1st.RvCsr.Status
use rafi_1st.Trace.{Event}
use rafi_1st.Cpu.Csr.{Csr, read_status, write_status, to_xstatus}
use rafi_1st.Cpu.Csr.Read.{read_uint64}
use rafi_1st.Cpu.Csr.Write.{write_uint64}
use rafi_1st.Cpu.Csr.Fields.{get_member-write_status}
use rafi_1st.Cpu.Csr.Sstatus.{write-sstatus, sie-IsSupervisorField}
use rafi_1st.Cpu.TrapProcessor.{Outcome, cause_of, target_pc}
use rafi_1st.Cpu.TrapProcessor.Stack.{machine-IsStack, supervisor-IsStack, push-ie}
use rafi_1st.Cpu.TrapProcessor.Machine as Machine
use rafi_1st.Cpu.TrapProcessor.Supervisor as Supervisor

-- The registers of a level.
abbrev pub cause_register : PrivilegeLevel → Csr → ℕ
cause_register user c = c.user_cause
cause_register supervisor c = c.supervisor_cause
cause_register reserved c = 0
cause_register machine c = c.machine_cause

abbrev pub exception_pc_register : PrivilegeLevel → Csr → ℕ
exception_pc_register user c = c.user_exception_pc
exception_pc_register supervisor c = c.supervisor_exception_pc
exception_pc_register reserved c = 0
exception_pc_register machine c = c.machine_exception_pc

abbrev pub trap_value_register : PrivilegeLevel → Csr → ℕ
trap_value_register user c = c.user_trap_value
trap_value_register supervisor c = c.supervisor_trap_value
trap_value_register reserved c = 0
trap_value_register machine c = c.machine_trap_value

abbrev pub trap_vector : PrivilegeLevel → Csr → ℕ
trap_vector user c = c.user_trap_vector
trap_vector supervisor c = c.supervisor_trap_vector
trap_vector reserved c = 0
trap_vector machine c = c.machine_trap_vector

abbrev pub enable_field : PrivilegeLevel → Member
enable_field user = Status.uie
enable_field supervisor = Status.sie
enable_field reserved = Status.mie
enable_field machine = Status.mie

-- The trap has been taken at `level`: its cause, pc and value stand in that level's registers,
-- the processor runs at that level from its vector, and its interrupts are off.
pub record IsEntered (xlen : SupportedXlen) (c : Csr) (level : PrivilegeLevel) (is_interrupt : Bool)
    (code trap_value pc : ℕ) (result : Outcome) : Type 0 where
  pub after : Csr
  pub events : List Event
  pub returns : result ≡ ok (after, events)
  pub priv : after.priv ≡ level
  pub cause : cause_register level after ≡ cause_of xlen is_interrupt code
  pub saved_pc : exception_pc_register level after ≡ pc
  pub saved_value : trap_value_register level after ≡ trap_value
  pub target : after.pc ≡ target_pc xlen (trap_vector level c) is_interrupt code
  pub disabled : get_member after.status (enable_field level) ≡ 0

pub machine_disabled :
    (c : Csr)
    → c.status < 2 ^ 64
    → get_member (write_status c (Machine.pushed c c.priv)).status Status.mie ≡ 0
machine_disabled c small =
    let w = Machine.mie-IsWritable in
    get_member-write_status c Status.mie small w.0 (Machine.pushed c c.priv) w.1
    ∙ push-ie Status.mie Status.mpie Status.mpp machine-IsStack (to_xstatus (read_status c))
        (omega arith) (priv_code c.priv)

pub supervisor_disabled :
    (c : Csr)
    → c.status < 2 ^ 64
    → get_member (write_uint64 c Addr.sstatus (Supervisor.pushed c c.priv)).status Status.sie ≡ 0
supervisor_disabled c small =
    write-sstatus c (Supervisor.pushed c c.priv) Status.sie small sie-IsSupervisorField
    ∙ push-ie Status.sie Status.spie Status.spp supervisor-IsStack (Supervisor.read c)
        (Supervisor.read-lt c) (priv_code c.priv)

-- What entering writes to `ustatus`.
abbrev pub user_pushed : Csr → ℕ
user_pushed c =
    let s0 = to_xstatus (read_uint64 c Addr.ustatus) in
    set_member 64 (set_member 64 s0 Status.upie (get_member s0 Status.uie)) Status.uie 0

pub user_disabled :
    (c : Csr)
    → c.status < 2 ^ 64
    → get_member (write_status c (bit_and (user_pushed c) Status.user_mask)).status Status.uie ≡ 0
unfolding get_with_mask get_member
user_disabled c small =
    let s0 = to_xstatus (read_uint64 c Addr.ustatus) in
    let s1 = set_member 64 s0 Status.upie (get_member s0 Status.uie) in
    let s1-lt : s1 < 2 ^ 64 =
      set_member-lt 64 s0 Status.upie (get_member s0 Status.uie) (omega arith) (omega arith) in
    get_member-write_status c Status.uie small (omega arith)
      (bit_and (user_pushed c) Status.user_mask) refl
    ∙ get_member-get_with_mask (user_pushed c) Status.user_mask Status.uie refl
    ∙ get_member-set_member 64 s1 Status.uie 0 s1-lt (omega arith)
