-- ===== src/Trace.antt =====
-- include/rafi/trace/EventTypes.h: the events that a cycle appends to its event list.
use rafi_1st.Base.{ℕ, List, [], ◌∷◌, ◌++◌}
use rafi_1st.RvTypes.{MemoryAccessType, PrivilegeLevel, TrapType}

pub record OpEvent : Type 0 where
  pub insn : ℕ
  pub priv : PrivilegeLevel

pub record TrapEvent : Type 0 where
  pub trap_type : TrapType
  pub from : PrivilegeLevel
  pub to : PrivilegeLevel
  pub cause : ℕ
  pub trap_value : ℕ

pub record MemoryEvent : Type 0 where
  pub access_type : MemoryAccessType
  pub size : ℕ
  pub value : ℕ
  pub vaddr : ℕ
  pub paddr : ℕ

-- std::variant<OpEvent, TrapEvent, MemoryEvent>
pub data Event : Type 0 where
  op : OpEvent → Event
  trap : TrapEvent → Event
  memory : MemoryEvent → Event

-- EventList::emplace_back
abbrev pub emplace_back : List Event → Event → List Event
emplace_back events e = events ++ e ∷ []
