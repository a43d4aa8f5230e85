-- ===== src/Cpu/Executor/Stable.antt =====
-- Invariants of the executor (src/bin/rafi-emu/cpu/Executor.cpp): a predicate that every basic step
-- keeps is kept by everything that is built of these steps.
use rafi_1st.Base.{ℕ}
use rafi_1st.Cpu.Trap.{Trap}
use rafi_1st.RvTypes.{InterruptType, PrivilegeLevel, MemoryAccessType}
use rafi_1st.Fp.SoftFloat.{FloatState}
use rafi_1st.Cpu.Executor.Machine.{Machine, Environment}
use rafi_1st.Cpu.Executor.Steps.{
  cancel_reservation, reserve_address, jump_to, put_csr32, put_csr64, put_status, put_fp_csr,
  put_int32, put_uint32, put_int64, put_uint64, put_fp32, put_fp64,
}
use rafi_1st.Cpu.Executor.MemorySteps.{
  translate_at, fetch16, fetch32, add_op_event, raise_exception, take_interrupt, load8, load16,
  load32, load64, store8, store16, store32, store64, run_float, check_access, trap_return,
}
use rafi_1st.Cpu.Executor.Keeps.{Keeps}
use rafi_1st.Cpu.Executor.Reads.{reads_rules}

-- What the checks before an instruction need: they only use the memory access unit's check.
pub record Checked {B : Type 0} (P : Machine B → Type 0) : Type 1 where
  pub by_check_access :
      (e : Environment B) (access_type : MemoryAccessType) (pc addr : ℕ)
      → Keeps P (check_access e access_type pc addr)

pub record Stable {B : Type 0} (P : Machine B → Type 0) : Type 1 where
  pub by_cancel_reservation : Keeps P (cancel_reservation {B = B})
  pub by_reserve_address : (addr : ℕ) → Keeps P (reserve_address {B = B} addr)
  pub by_jump_to : (pc : ℕ) → Keeps P (jump_to {B = B} pc)
  pub by_put_csr32 : (addr v : ℕ) → Keeps P (put_csr32 {B = B} addr v)
  pub by_put_csr64 : (addr v : ℕ) → Keeps P (put_csr64 {B = B} addr v)
  pub by_put_status : (v : ℕ) → Keeps P (put_status {B = B} v)
  pub by_put_fp_csr : (v : ℕ) → Keeps P (put_fp_csr {B = B} v)
  pub by_put_int32 : (reg_id v : ℕ) → Keeps P (put_int32 {B = B} reg_id v)
  pub by_put_uint32 : (reg_id v : ℕ) → Keeps P (put_uint32 {B = B} reg_id v)
  pub by_put_int64 : (reg_id v : ℕ) → Keeps P (put_int64 {B = B} reg_id v)
  pub by_put_uint64 : (reg_id v : ℕ) → Keeps P (put_uint64 {B = B} reg_id v)
  pub by_put_fp32 : (reg_id v : ℕ) → Keeps P (put_fp32 {B = B} reg_id v)
  pub by_put_fp64 : (reg_id v : ℕ) → Keeps P (put_fp64 {B = B} reg_id v)
  pub by_load8 : (e : Environment B) (addr : ℕ) → Keeps P (load8 e addr)
  pub by_load16 : (e : Environment B) (addr : ℕ) → Keeps P (load16 e addr)
  pub by_load32 : (e : Environment B) (addr : ℕ) → Keeps P (load32 e addr)
  pub by_load64 : (e : Environment B) (addr : ℕ) → Keeps P (load64 e addr)
  pub by_store8 : (e : Environment B) (addr v : ℕ) → Keeps P (store8 e addr v)
  pub by_store16 : (e : Environment B) (addr v : ℕ) → Keeps P (store16 e addr v)
  pub by_store32 : (e : Environment B) (addr v : ℕ) → Keeps P (store32 e addr v)
  pub by_store64 : (e : Environment B) (addr v : ℕ) → Keeps P (store64 e addr v)
  pub by_run_float : {A : Type 0} (f : FloatState → A × FloatState) → Keeps P (run_float {B = B} f)
  pub by_check_access :
      (e : Environment B) (access_type : MemoryAccessType) (pc addr : ℕ)
      → Keeps P (check_access e access_type pc addr)
  pub by_trap_return : (level : PrivilegeLevel) → Keeps P (trap_return {B = B} level)
  pub by_translate_at :
      (e : Environment B) (access_type : MemoryAccessType) (vaddr pc : ℕ)
      → Keeps P (translate_at e access_type vaddr pc)
  pub by_fetch16 : (e : Environment B) (vaddr paddr : ℕ) → Keeps P (fetch16 e vaddr paddr)
  pub by_fetch32 : (e : Environment B) (vaddr paddr : ℕ) → Keeps P (fetch32 e vaddr paddr)
  pub by_add_op_event :
      (insn : ℕ) (priv : PrivilegeLevel) → Keeps P (add_op_event {B = B} insn priv)
  pub by_raise_exception : (e : Environment B) (t : Trap) → Keeps P (raise_exception e t)
  pub by_take_interrupt :
      (e : Environment B) (type : InterruptType) (pc : ℕ) → Keeps P (take_interrupt e type pc)

instance pub Stable-Checked : {B : Type 0} {P : Machine B → Type 0} ⦃stable : Stable P⦄ → Checked P
Stable-Checked ⦃stable⦄ = record { by_check_access = stable.by_check_access }

module _ {B : Type 0} {P : Machine B → Type 0} ⦃checked : Checked P⦄ where
  pub check_access-Keeps :
      (e : Environment B) (access_type : MemoryAccessType) (pc addr : ℕ)
      → Keeps P (check_access e access_type pc addr)
  check_access-Keeps = checked.by_check_access

pub ruleset checked_rules = (reads_rules, check_access-Keeps)

module _ {B : Type 0} {P : Machine B → Type 0} ⦃stable : Stable P⦄ where
  pub cancel_reservation-Keeps : Keeps P (cancel_reservation {B = B})
  cancel_reservation-Keeps = stable.by_cancel_reservation

  pub reserve_address-Keeps : (addr : ℕ) → Keeps P (reserve_address {B = B} addr)
  reserve_address-Keeps = stable.by_reserve_address

  pub jump_to-Keeps : (pc : ℕ) → Keeps P (jump_to {B = B} pc)
  jump_to-Keeps = stable.by_jump_to

  pub put_csr32-Keeps : (addr v : ℕ) → Keeps P (put_csr32 {B = B} addr v)
  put_csr32-Keeps = stable.by_put_csr32

  pub put_csr64-Keeps : (addr v : ℕ) → Keeps P (put_csr64 {B = B} addr v)
  put_csr64-Keeps = stable.by_put_csr64

  pub put_status-Keeps : (v : ℕ) → Keeps P (put_status {B = B} v)
  put_status-Keeps = stable.by_put_status

  pub put_fp_csr-Keeps : (v : ℕ) → Keeps P (put_fp_csr {B = B} v)
  put_fp_csr-Keeps = stable.by_put_fp_csr

  pub put_int32-Keeps : (reg_id v : ℕ) → Keeps P (put_int32 {B = B} reg_id v)
  put_int32-Keeps = stable.by_put_int32

  pub put_uint32-Keeps : (reg_id v : ℕ) → Keeps P (put_uint32 {B = B} reg_id v)
  put_uint32-Keeps = stable.by_put_uint32

  pub put_int64-Keeps : (reg_id v : ℕ) → Keeps P (put_int64 {B = B} reg_id v)
  put_int64-Keeps = stable.by_put_int64

  pub put_uint64-Keeps : (reg_id v : ℕ) → Keeps P (put_uint64 {B = B} reg_id v)
  put_uint64-Keeps = stable.by_put_uint64

  pub put_fp32-Keeps : (reg_id v : ℕ) → Keeps P (put_fp32 {B = B} reg_id v)
  put_fp32-Keeps = stable.by_put_fp32

  pub put_fp64-Keeps : (reg_id v : ℕ) → Keeps P (put_fp64 {B = B} reg_id v)
  put_fp64-Keeps = stable.by_put_fp64

  pub load8-Keeps : (e : Environment B) (addr : ℕ) → Keeps P (load8 e addr)
  load8-Keeps = stable.by_load8

  pub load16-Keeps : (e : Environment B) (addr : ℕ) → Keeps P (load16 e addr)
  load16-Keeps = stable.by_load16

  pub load32-Keeps : (e : Environment B) (addr : ℕ) → Keeps P (load32 e addr)
  load32-Keeps = stable.by_load32

  pub load64-Keeps : (e : Environment B) (addr : ℕ) → Keeps P (load64 e addr)
  load64-Keeps = stable.by_load64

  pub store8-Keeps : (e : Environment B) (addr v : ℕ) → Keeps P (store8 e addr v)
  store8-Keeps = stable.by_store8

  pub store16-Keeps : (e : Environment B) (addr v : ℕ) → Keeps P (store16 e addr v)
  store16-Keeps = stable.by_store16

  pub store32-Keeps : (e : Environment B) (addr v : ℕ) → Keeps P (store32 e addr v)
  store32-Keeps = stable.by_store32

  pub store64-Keeps : (e : Environment B) (addr v : ℕ) → Keeps P (store64 e addr v)
  store64-Keeps = stable.by_store64

  pub run_float-Keeps :
      {A : Type 0} (f : FloatState → A × FloatState) → Keeps P (run_float {B = B} f)
  run_float-Keeps = stable.by_run_float

  pub trap_return-Keeps : (level : PrivilegeLevel) → Keeps P (trap_return {B = B} level)
  trap_return-Keeps = stable.by_trap_return

  pub translate_at-Keeps :
      (e : Environment B) (access_type : MemoryAccessType) (vaddr pc : ℕ)
      → Keeps P (translate_at e access_type vaddr pc)
  translate_at-Keeps = stable.by_translate_at

  pub fetch16-Keeps : (e : Environment B) (vaddr paddr : ℕ) → Keeps P (fetch16 e vaddr paddr)
  fetch16-Keeps = stable.by_fetch16

  pub fetch32-Keeps : (e : Environment B) (vaddr paddr : ℕ) → Keeps P (fetch32 e vaddr paddr)
  fetch32-Keeps = stable.by_fetch32

  pub add_op_event-Keeps :
      (insn : ℕ) (priv : PrivilegeLevel) → Keeps P (add_op_event {B = B} insn priv)
  add_op_event-Keeps = stable.by_add_op_event

  pub raise_exception-Keeps : (e : Environment B) (t : Trap) → Keeps P (raise_exception e t)
  raise_exception-Keeps = stable.by_raise_exception

  pub take_interrupt-Keeps :
      (e : Environment B) (type : InterruptType) (pc : ℕ) → Keeps P (take_interrupt e type pc)
  take_interrupt-Keeps = stable.by_take_interrupt

pub ruleset stable_rules = (
  checked_rules, cancel_reservation-Keeps, reserve_address-Keeps, jump_to-Keeps, put_csr32-Keeps,
  put_csr64-Keeps, put_status-Keeps, put_fp_csr-Keeps, put_int32-Keeps, put_uint32-Keeps,
  put_int64-Keeps, put_uint64-Keeps, put_fp32-Keeps, put_fp64-Keeps, load8-Keeps, load16-Keeps,
  load32-Keeps, load64-Keeps, store8-Keeps, store16-Keeps, store32-Keeps, store64-Keeps,
  run_float-Keeps, trap_return-Keeps, translate_at-Keeps, fetch16-Keeps, fetch32-Keeps,
  add_op_event-Keeps, raise_exception-Keeps, take_interrupt-Keeps,
)
