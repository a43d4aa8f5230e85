-- ===== src/Cpu/Executor/WellFormed.antt =====
-- The basic steps of src/bin/rafi-emu/cpu/Executor.cpp keep the registers well formed.
mod Writes
pub use Writes.{IsIntRegFile, IsFpRegFile, IsWellFormed}
use Writes.{
  put_int32-IsWellFormed, put_uint32-IsWellFormed, put_int64-IsWellFormed, put_uint64-IsWellFormed,
  put_fp32-IsWellFormed, put_fp64-IsWellFormed,
}
use rafi_1st.Base
use rafi_1st.Base.{
  ℕ, ◌+◌, ◌*◌, ◌/◌, ◌%◌, ◌^◌, ◌<◌, ◌≡◌, arith, Bool, true, false, ◌==◌, if◌then◌else◌, Result, ok,
  throw,
}
use rafi_1st.RvTypes.{PrivilegeLevel, MemoryAccessType, InterruptType}
use rafi_1st.Cpu.Csr.{Csr}
use rafi_1st.Cpu.IntRegFile.{
  IntRegFile, check_reg_id, write32, write64, write_int32, write_uint32, write_int64, write_uint64,
}
use rafi_1st.Cpu.FpRegFile
use rafi_1st.Cpu.FpRegFile.{FpRegFile}
use rafi_1st.Cpu.MemoryAccessUnit.{MemoryAccessUnit}
use rafi_1st.Cpu.MemoryAccessUnit.Access.{
  Traced, load_uint8, load_uint16, load_uint32, load_uint64, fetch_uint16, fetch_uint32,
  store_uint8, store_uint16, store_uint32, store_uint64,
}
use rafi_1st.Fp.SoftFloat.{FloatState}
use rafi_1st.Cpu.Executor.Machine.{Machine, Environment}
use rafi_1st.Cpu.Executor.Steps.{
  put_csr32, put_csr64, put_status, put_fp_csr, cancel_reservation, reserve_address, jump_to,
  put_csr, put_int_regs, put_int32, put_uint32, put_int64, put_uint64, put_fp32, put_fp64,
}
use rafi_1st.Cpu.Executor.MemorySteps.{
  with_trap, translate_at, after_translate, fetch16, fetch32, add_op_event, raise_exception,
  take_interrupt, load_by, store_by, after_load, unit_of, load8, load16, load32, load64, store8,
  store16, store32, store64, check_access, after_check, trap_return, run_float,
}
use rafi_1st.Base.{List}
use rafi_1st.Trace.{Event}
use rafi_1st.Cpu.Action
use rafi_1st.Cpu.Action.{value, trapped}
use rafi_1st.Cpu.MemoryAccessUnit.Check.{check_trap}
use rafi_1st.Cpu.TrapProcessor.{process_trap_return, process_exception, process_interrupt}
use rafi_1st.Cpu.MemoryAccessUnit.Translate.{translate}
use rafi_1st.Cpu.Executor.Keeps.{Keeps, Keeps-modify, After, Ends}
use rafi_1st.Cpu.Executor.Stable.{Stable}
use rafi_1st.Cpu.Trap.{Trap}

-- Changes of the rest of the state leave the registers alone.
module _ {B : Type 0} where
  cancel_reservation-IsWellFormed : Keeps IsWellFormed (cancel_reservation {B = B})
  unfolding cancel_reservation
  cancel_reservation-IsWellFormed = search (Keeps-modify)

  reserve_address-IsWellFormed : (addr : ℕ) → Keeps IsWellFormed (reserve_address {B = B} addr)
  unfolding reserve_address
  reserve_address-IsWellFormed addr = search (Keeps-modify)

  jump_to-IsWellFormed : (pc : ℕ) → Keeps IsWellFormed (jump_to {B = B} pc)
  unfolding jump_to
  jump_to-IsWellFormed pc = search (Keeps-modify)

  put_csr-IsWellFormed : (f : Csr → Csr) → Keeps IsWellFormed (put_csr {B = B} f)
  unfolding put_csr
  put_csr-IsWellFormed f = search (Keeps-modify)

  load-After :
      (m : Machine B) (r : Result (ℕ × Traced B))
      → IsWellFormed m
      → After IsWellFormed (after_load m r)
  load-After m (ok (v, t)) h = h
  load-After m (throw e) h = tt

  load_by-IsWellFormed :
      (load : MemoryAccessUnit B → ℕ → Traced B → Result (ℕ × Traced B)) (e : Environment B)
      (addr : ℕ)
      → Keeps IsWellFormed (load_by load e addr)
  unfolding load_by
  load_by-IsWellFormed load e addr = record {
    at = λ m h. load-After m (load (unit_of e m) addr m.memory) h;
  }

  store-Ends :
      (m : Machine B) (r : Result (Traced B))
      → IsWellFormed m
      → Ends IsWellFormed (Base.◌>>=◌ r (λ t. ok (record m { memory = t })))
  store-Ends m (ok t) h = h
  store-Ends m (throw e) h = tt

  store_by-IsWellFormed :
      (store : MemoryAccessUnit B → ℕ → ℕ → Traced B → Result (Traced B)) (e : Environment B)
      (addr v : ℕ)
      → Keeps IsWellFormed (store_by store e addr v)
  unfolding store_by
  store_by-IsWellFormed store e addr v =
      Keeps-modify IsWellFormed _ (λ m h. store-Ends m (store (unit_of e m) addr v m.memory) h)

  check-After :
      (m : Machine B) (r : Result (Action.Outcome (Unit {0}) × B))
      → IsWellFormed m
      → After IsWellFormed (after_check m r)
  check-After m (ok (value u, b)) h = h
  check-After m (ok (trapped t, b)) h = h
  check-After m (throw e) h = tt

  check_access-IsWellFormed :
      (e : Environment B) (access_type : MemoryAccessType) (pc addr : ℕ)
      → Keeps IsWellFormed (check_access e access_type pc addr)
  unfolding check_access
  check_access-IsWellFormed e access_type pc addr = record {
    at = λ m h. check-After m (check_trap (unit_of e m) access_type pc addr m.memory.0) h;
  }

  trap-Ends :
      (m : Machine B) (r : Result (Csr × List Event))
      → IsWellFormed m
      → Ends IsWellFormed (with_trap m r)
  trap-Ends m (ok x) h = h
  trap-Ends m (throw e) h = tt

  trap_return-IsWellFormed :
      (level : PrivilegeLevel) → Keeps IsWellFormed (trap_return {B = B} level)
  unfolding trap_return
  trap_return-IsWellFormed level =
      Keeps-modify IsWellFormed _
        (λ m h. trap-Ends m (process_trap_return m.csr m.memory.1 level) h)

  raise_exception-IsWellFormed :
      (e : Environment B) (t : Trap) → Keeps IsWellFormed (raise_exception e t)
  unfolding raise_exception
  raise_exception-IsWellFormed e t =
      Keeps-modify IsWellFormed _
        (λ m h. trap-Ends m (process_exception e.xlen m.csr m.memory.1 t) h)

  take_interrupt-IsWellFormed :
      (e : Environment B) (type : InterruptType) (pc : ℕ)
      → Keeps IsWellFormed (take_interrupt e type pc)
  unfolding take_interrupt
  take_interrupt-IsWellFormed e type pc =
      Keeps-modify IsWellFormed _
        (λ m h. trap-Ends m (process_interrupt e.xlen m.csr m.memory.1 type pc) h)

  add_op_event-IsWellFormed :
      (insn : ℕ) (priv : PrivilegeLevel) → Keeps IsWellFormed (add_op_event {B = B} insn priv)
  unfolding add_op_event
  add_op_event-IsWellFormed insn priv = search (Keeps-modify)

  translate-After :
      (m : Machine B) (r : Result (Action.Outcome ℕ × B))
      → IsWellFormed m
      → After IsWellFormed (after_translate m r)
  translate-After m (ok x) h = h
  translate-After m (throw e) h = tt

  translate_at-IsWellFormed :
      (e : Environment B) (access_type : MemoryAccessType) (vaddr pc : ℕ)
      → Keeps IsWellFormed (translate_at e access_type vaddr pc)
  unfolding translate_at
  translate_at-IsWellFormed e access_type vaddr pc = record {
    at = λ m h. translate-After m (translate (unit_of e m) access_type vaddr pc m.memory.0) h;
  }

  fetch16-IsWellFormed :
      (e : Environment B) (vaddr paddr : ℕ) → Keeps IsWellFormed (fetch16 e vaddr paddr)
  unfolding fetch16
  fetch16-IsWellFormed e vaddr paddr = record {
    at = λ m h. load-After m (fetch_uint16 (unit_of e m) vaddr paddr m.memory) h;
  }

  fetch32-IsWellFormed :
      (e : Environment B) (vaddr paddr : ℕ) → Keeps IsWellFormed (fetch32 e vaddr paddr)
  unfolding fetch32
  fetch32-IsWellFormed e vaddr paddr = record {
    at = λ m h. load-After m (fetch_uint32 (unit_of e m) vaddr paddr m.memory) h;
  }

  load8-IsWellFormed : (e : Environment B) (addr : ℕ) → Keeps IsWellFormed (load8 e addr)
  unfolding load8
  load8-IsWellFormed = load_by-IsWellFormed load_uint8

  store8-IsWellFormed : (e : Environment B) (addr v : ℕ) → Keeps IsWellFormed (store8 e addr v)
  unfolding store8
  store8-IsWellFormed = store_by-IsWellFormed store_uint8

  load16-IsWellFormed : (e : Environment B) (addr : ℕ) → Keeps IsWellFormed (load16 e addr)
  unfolding load16
  load16-IsWellFormed = load_by-IsWellFormed load_uint16

  store16-IsWellFormed : (e : Environment B) (addr v : ℕ) → Keeps IsWellFormed (store16 e addr v)
  unfolding store16
  store16-IsWellFormed = store_by-IsWellFormed store_uint16

  load32-IsWellFormed : (e : Environment B) (addr : ℕ) → Keeps IsWellFormed (load32 e addr)
  unfolding load32
  load32-IsWellFormed = load_by-IsWellFormed load_uint32

  store32-IsWellFormed : (e : Environment B) (addr v : ℕ) → Keeps IsWellFormed (store32 e addr v)
  unfolding store32
  store32-IsWellFormed = store_by-IsWellFormed store_uint32

  load64-IsWellFormed : (e : Environment B) (addr : ℕ) → Keeps IsWellFormed (load64 e addr)
  unfolding load64
  load64-IsWellFormed = load_by-IsWellFormed load_uint64

  store64-IsWellFormed : (e : Environment B) (addr v : ℕ) → Keeps IsWellFormed (store64 e addr v)
  unfolding store64
  store64-IsWellFormed = store_by-IsWellFormed store_uint64

  run_float-IsWellFormed :
      {A : Type 0} (f : FloatState → A × FloatState) → Keeps IsWellFormed (run_float {B = B} f)
  unfolding run_float
  run_float-IsWellFormed f = record { at = λ m h. h }

  put_csr32-IsWellFormed : (addr v : ℕ) → Keeps IsWellFormed (put_csr32 {B = B} addr v)
  unfolding put_csr32
  put_csr32-IsWellFormed addr v = search (put_csr-IsWellFormed)

  put_csr64-IsWellFormed : (addr v : ℕ) → Keeps IsWellFormed (put_csr64 {B = B} addr v)
  unfolding put_csr64
  put_csr64-IsWellFormed addr v = search (put_csr-IsWellFormed)

  put_status-IsWellFormed : (v : ℕ) → Keeps IsWellFormed (put_status {B = B} v)
  unfolding put_status
  put_status-IsWellFormed v = search (put_csr-IsWellFormed)

  put_fp_csr-IsWellFormed : (v : ℕ) → Keeps IsWellFormed (put_fp_csr {B = B} v)
  unfolding put_fp_csr
  put_fp_csr-IsWellFormed v = search (put_csr-IsWellFormed)

instance pub IsWellFormed-Stable : {B : Type 0} → Stable (IsWellFormed {B = B})
IsWellFormed-Stable = record {
  by_cancel_reservation = cancel_reservation-IsWellFormed;
  by_reserve_address = reserve_address-IsWellFormed;
  by_jump_to = jump_to-IsWellFormed;
  by_put_csr32 = put_csr32-IsWellFormed;
  by_put_csr64 = put_csr64-IsWellFormed;
  by_put_status = put_status-IsWellFormed;
  by_put_fp_csr = put_fp_csr-IsWellFormed;
  by_put_int32 = put_int32-IsWellFormed;
  by_put_uint32 = put_uint32-IsWellFormed;
  by_put_int64 = put_int64-IsWellFormed;
  by_put_uint64 = put_uint64-IsWellFormed;
  by_put_fp32 = put_fp32-IsWellFormed;
  by_put_fp64 = put_fp64-IsWellFormed;
  by_load8 = load8-IsWellFormed;
  by_load16 = load16-IsWellFormed;
  by_load32 = load32-IsWellFormed;
  by_load64 = load64-IsWellFormed;
  by_store8 = store8-IsWellFormed;
  by_store16 = store16-IsWellFormed;
  by_store32 = store32-IsWellFormed;
  by_store64 = store64-IsWellFormed;
  by_run_float = run_float-IsWellFormed;
  by_check_access = check_access-IsWellFormed;
  by_trap_return = trap_return-IsWellFormed;
  by_translate_at = translate_at-IsWellFormed;
  by_fetch16 = fetch16-IsWellFormed;
  by_fetch32 = fetch32-IsWellFormed;
  by_add_op_event = add_op_event-IsWellFormed;
  by_raise_exception = raise_exception-IsWellFormed;
  by_take_interrupt = take_interrupt-IsWellFormed;
}
