-- ===== src/Cpu/MemoryAccessUnit/Access.antt =====
-- src/bin/rafi-emu/cpu/MemoryAccessUnit.cpp: the loads, the stores and the fetches. The unit's
-- event list is state next to the bus.
use rafi_1st.Base.{ℕ, List, Result, ok, throw, ◌>>=◌, indeterminate}
use rafi_1st.RvTypes.{MemoryAccessType, instruction, load, store}
use rafi_1st.Trace.{Event, memory, emplace_back}
use rafi_1st.Emu.Interface.{
  read_uint8, read_uint16, read_uint32, read_uint64, write_uint8, write_uint16, write_uint32,
  write_uint64,
}
use rafi_1st.Cpu.Action.{Outcome, value, trapped}
use rafi_1st.Cpu.MemoryAccessUnit.{MemoryAccessUnit}
use rafi_1st.Cpu.MemoryAccessUnit.Translate.{translate}

-- The bus and `m_pEventList`
abbrev pub Traced : Type 0 → Type 0
Traced B = B × List Event

-- AddEvent
abbrev pub add_event : List Event → MemoryAccessType → ℕ → ℕ → ℕ → ℕ → List Event
add_event events access_type size v vaddr paddr = emplace_back events (
    memory
      (record { access_type = access_type; size = size; value = v; vaddr = vaddr; paddr = paddr }))

-- `paddr` after `Translate`, whose result the callers drop: after a trap it was never set.
abbrev pub paddr_of : {B : Type 0} → Result (Outcome ℕ × B) → Result (ℕ × B)
paddr_of (ok (value paddr, b)) = ok (paddr, b)
paddr_of (ok (trapped t, b)) = throw indeterminate
paddr_of (throw e) = throw e

-- The body that the loads share, at the bytes of the type and the read of the bus
unfoldable pub load_with :
    {B : Type 0}
    → MemoryAccessUnit B
    → (ℕ → B → Result (ℕ × B))
    → ℕ
    → ℕ
    → Traced B
    → Result (ℕ × Traced B)
load_with m read size addr (b, events) = do
  (paddr, b1) ← paddr_of (translate m load addr 0 b)
  (v, b2) ← read paddr b1
  ok (v, (b2, add_event events load size v addr paddr))

unfoldable pub load_uint8 : {B : Type 0} → MemoryAccessUnit B → ℕ → Traced B → Result (ℕ × Traced B)
unfolding load_with
load_uint8 m addr s = load_with m (read_uint8 m.bus) 1 addr s

unfoldable pub load_uint16 :
    {B : Type 0} → MemoryAccessUnit B → ℕ → Traced B → Result (ℕ × Traced B)
unfolding load_with
load_uint16 m addr s = load_with m (read_uint16 m.bus) 2 addr s

unfoldable pub load_uint32 :
    {B : Type 0} → MemoryAccessUnit B → ℕ → Traced B → Result (ℕ × Traced B)
unfolding load_with
load_uint32 m addr s = load_with m (read_uint32 m.bus) 4 addr s

unfoldable pub load_uint64 :
    {B : Type 0} → MemoryAccessUnit B → ℕ → Traced B → Result (ℕ × Traced B)
unfolding load_with
load_uint64 m addr s = load_with m (read_uint64 m.bus) 8 addr s

-- The body that the stores share; the value is one of the type.
unfoldable pub store_with :
    {B : Type 0}
    → MemoryAccessUnit B
    → (ℕ → ℕ → B → Result B)
    → ℕ
    → ℕ
    → ℕ
    → Traced B
    → Result (Traced B)
store_with m write size addr v (b, events) = do
  (paddr, b1) ← paddr_of (translate m store addr 0 b)
  b2 ← write paddr v b1
  ok (b2, add_event events store size v addr paddr)

unfoldable pub store_uint8 :
    {B : Type 0} → MemoryAccessUnit B → ℕ → ℕ → Traced B → Result (Traced B)
unfolding store_with
store_uint8 m addr v s = store_with m (write_uint8 m.bus) 1 addr v s

unfoldable pub store_uint16 :
    {B : Type 0} → MemoryAccessUnit B → ℕ → ℕ → Traced B → Result (Traced B)
unfolding store_with
store_uint16 m addr v s = store_with m (write_uint16 m.bus) 2 addr v s

unfoldable pub store_uint32 :
    {B : Type 0} → MemoryAccessUnit B → ℕ → ℕ → Traced B → Result (Traced B)
unfolding store_with
store_uint32 m addr v s = store_with m (write_uint32 m.bus) 4 addr v s

unfoldable pub store_uint64 :
    {B : Type 0} → MemoryAccessUnit B → ℕ → ℕ → Traced B → Result (Traced B)
unfolding store_with
store_uint64 m addr v s = store_with m (write_uint64 m.bus) 8 addr v s

-- FetchUInt16 and FetchUInt32 are given the physical address.
unfoldable pub fetch_uint16 :
    {B : Type 0} → MemoryAccessUnit B → ℕ → ℕ → Traced B → Result (ℕ × Traced B)
fetch_uint16 m vaddr paddr (b, events) = do
  (v, b1) ← read_uint16 m.bus paddr b
  ok (v, (b1, add_event events instruction 2 v vaddr paddr))

unfoldable pub fetch_uint32 :
    {B : Type 0} → MemoryAccessUnit B → ℕ → ℕ → Traced B → Result (ℕ × Traced B)
fetch_uint32 m vaddr paddr (b, events) = do
  (v, b1) ← read_uint32 m.bus paddr b
  ok (v, (b1, add_event events instruction 4 v vaddr paddr))
