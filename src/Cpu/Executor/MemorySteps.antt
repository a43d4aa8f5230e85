-- ===== src/Cpu/Executor/MemorySteps.antt =====
-- The steps that the executor and the processor take on the memory access unit, the trap processor
-- and SoftFloat (src/bin/rafi-emu/cpu/Executor.cpp, Processor.cpp).
use rafi_1st.Base
use rafi_1st.Base.{
  ℕ, ◌<◌, ◌^◌, Option, none, some, List, Fault, Result, ok, throw, exited, bad_variant_access,
}
use rafi_1st.RvTypes.{PrivilegeLevel, MemoryAccessType}
use rafi_1st.Trace.{Event}
use rafi_1st.Fp.SoftFloat.{FloatState}
use rafi_1st.Cpu.Trap.{Trap}
use rafi_1st.Cpu.Action
use rafi_1st.Cpu.Action.{value, trapped}
use rafi_1st.Cpu.Csr.{Csr}
use rafi_1st.Cpu.TrapProcessor.{process_trap_return}
use rafi_1st.Cpu.MemoryAccessUnit.{MemoryAccessUnit}
use rafi_1st.Cpu.MemoryAccessUnit.Check.{check_trap}
use rafi_1st.Cpu.MemoryAccessUnit.Access.{
  Traced, load_uint8, load_uint16, load_uint32, load_uint64, store_uint8, store_uint16,
  store_uint32, store_uint64,
}
use rafi_1st.Trace.{op, emplace_back}
use rafi_1st.RvTypes.{InterruptType}
use rafi_1st.Cpu.Action.{Outcome}
use rafi_1st.Cpu.TrapProcessor.{process_exception, process_interrupt}
use rafi_1st.Cpu.MemoryAccessUnit.Translate.{translate}
use rafi_1st.Cpu.MemoryAccessUnit.Access.{fetch_uint16, fetch_uint32}
use rafi_1st.Cpu.Executor.Machine.{Machine, Environment, Execution, modify}

-- m_pMemAccessUnit, which sees the registers as they are now
abbrev pub unit_of : {B : Type 0} → Environment B → Machine B → MemoryAccessUnit B
unit_of e m = record { xlen = e.xlen; bus = e.bus; csr = m.csr }

abbrev pub after_load : {B : Type 0} → Machine B → Result (ℕ × Traced B) → Result (ℕ × Machine B)
after_load m (ok (v, memory)) = ok (v, record m { memory = memory })
after_load m (throw fault) = throw fault

unfoldable pub load_by :
    {B : Type 0}
    → (MemoryAccessUnit B → ℕ → Traced B → Result (ℕ × Traced B))
    → Environment B
    → ℕ
    → Execution B ℕ
load_by load e addr m = after_load m (load (unit_of e m) addr m.memory)

unfoldable pub store_by :
    {B : Type 0}
    → (MemoryAccessUnit B → ℕ → ℕ → Traced B → Result (Traced B))
    → Environment B
    → ℕ
    → ℕ
    → Execution B (Unit {0})
unfolding modify
store_by store e addr v =
    modify
      (λ m. Base.◌>>=◌ (store (unit_of e m) addr v m.memory) (λ t. ok (record m { memory = t })))

unfoldable pub load8 : {B : Type 0} → Environment B → ℕ → Execution B ℕ
unfolding load_by load_uint8
load8 = load_by load_uint8

unfoldable pub store8 : {B : Type 0} → Environment B → ℕ → ℕ → Execution B (Unit {0})
unfolding store_by store_uint8
store8 = store_by store_uint8

unfoldable pub load16 : {B : Type 0} → Environment B → ℕ → Execution B ℕ
unfolding load_by load_uint16
load16 = load_by load_uint16

unfoldable pub store16 : {B : Type 0} → Environment B → ℕ → ℕ → Execution B (Unit {0})
unfolding store_by store_uint16
store16 = store_by store_uint16

unfoldable pub load32 : {B : Type 0} → Environment B → ℕ → Execution B ℕ
unfolding load_by load_uint32
load32 = load_by load_uint32

unfoldable pub store32 : {B : Type 0} → Environment B → ℕ → ℕ → Execution B (Unit {0})
unfolding store_by store_uint32
store32 = store_by store_uint32

unfoldable pub load64 : {B : Type 0} → Environment B → ℕ → Execution B ℕ
unfolding load_by load_uint64
load64 = load_by load_uint64

unfoldable pub store64 : {B : Type 0} → Environment B → ℕ → ℕ → Execution B (Unit {0})
unfolding store_by store_uint64
store64 = store_by store_uint64

-- m_pMemAccessUnit->CheckTrap, as an optional trap
abbrev pub after_check :
    {B : Type 0}
    → Machine B
    → Result (Action.Outcome (Unit {0}) × B)
    → Result (Option Trap × Machine B)
after_check m (ok (value u, b)) = ok (none, record m { memory = (b, m.memory.1) })
after_check m (ok (trapped t, b)) = ok (some t, record m { memory = (b, m.memory.1) })
after_check m (throw fault) = throw fault

unfoldable pub check_access :
    {B : Type 0} → Environment B → MemoryAccessType → ℕ → ℕ → Execution B (Option Trap)
unfolding check_trap
check_access e access_type pc addr m =
    after_check m (check_trap (unit_of e m) access_type pc addr m.memory.0)

-- m_pTrapProcessor->ProcessTrapReturn
unfoldable pub trap_return : {B : Type 0} → PrivilegeLevel → Execution B (Unit {0})
unfolding modify process_trap_return
trap_return level = modify (λ m.
    Base.◌>>=◌ (process_trap_return m.csr m.memory.1 level)
      (λ r. ok (record m { csr = r.0; memory = (m.memory.0, r.1) })))

-- A call of SoftFloat
unfoldable pub run_float : {B A : Type 0} → (FloatState → A × FloatState) → Execution B A
run_float f m = let (v, s) = f m.float in ok (v, record m { float = s })

-- m_MemAccessUnit.Translate, and FetchUInt16 and FetchUInt32 at a physical address
abbrev pub after_translate :
    {B : Type 0} → Machine B → Result (Outcome ℕ × B) → Result (Outcome ℕ × Machine B)
after_translate m (ok (r, b)) = ok (r, record m { memory = (b, m.memory.1) })
after_translate m (throw fault) = throw fault

unfoldable pub translate_at :
    {B : Type 0} → Environment B → MemoryAccessType → ℕ → ℕ → Execution B (Outcome ℕ)
unfolding translate
translate_at e access_type vaddr pc m =
    after_translate m (translate (unit_of e m) access_type vaddr pc m.memory.0)

unfoldable pub fetch16 : {B : Type 0} → Environment B → ℕ → ℕ → Execution B ℕ
unfolding fetch_uint16
fetch16 e vaddr paddr m = after_load m (fetch_uint16 (unit_of e m) vaddr paddr m.memory)

unfoldable pub fetch32 : {B : Type 0} → Environment B → ℕ → ℕ → Execution B ℕ
unfolding fetch_uint32
fetch32 e vaddr paddr m = after_load m (fetch_uint32 (unit_of e m) vaddr paddr m.memory)

-- m_pEventList->emplace_back(trace::OpEvent { insn, priv })
unfoldable pub add_op_event : {B : Type 0} → ℕ → PrivilegeLevel → Execution B (Unit {0})
unfolding modify
add_op_event insn priv = modify (λ m. ok (record m {
  memory = (m.memory.0, emplace_back m.memory.1 (op (record { insn = insn; priv = priv })));
}))

-- m_TrapProcessor.ProcessException, ProcessInterrupt
abbrev pub with_trap : {B : Type 0} → Machine B → Result (Csr × List Event) → Result (Machine B)
with_trap m r = Base.◌>>=◌ r (λ x. ok (record m { csr = x.0; memory = (m.memory.0, x.1) }))

unfoldable pub raise_exception : {B : Type 0} → Environment B → Trap → Execution B (Unit {0})
unfolding modify process_exception
raise_exception e t = modify (λ m. with_trap m (process_exception e.xlen m.csr m.memory.1 t))

unfoldable pub take_interrupt :
    {B : Type 0} → Environment B → InterruptType → ℕ → Execution B (Unit {0})
unfolding modify process_interrupt
take_interrupt e type pc =
    modify (λ m. with_trap m (process_interrupt e.xlen m.csr m.memory.1 type pc))
