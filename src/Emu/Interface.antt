-- ===== src/Emu/Interface.antt =====
-- include/rafi/emu/Bus.h: what a processor sees of the bus. A read can change a device, so it
-- returns the state after it.
use rafi_1st.Base.{ℕ, Result}

-- Bus::Read and Bus::Write, by size and address, on the numbers that the buffers hold
pub record Bus (B : Type 0) : Type 0 where
  pub read : ℕ → ℕ → B → Result (ℕ × B)
  pub write : ℕ → ℕ → ℕ → B → Result B

-- Bus::ReadUInt8, ReadUInt16, ReadUInt32, ReadUInt64
abbrev pub read_uint8 : {B : Type 0} → Bus B → ℕ → B → Result (ℕ × B)
read_uint8 bus address b = bus.read 1 address b

abbrev pub read_uint16 : {B : Type 0} → Bus B → ℕ → B → Result (ℕ × B)
read_uint16 bus address b = bus.read 2 address b

abbrev pub read_uint32 : {B : Type 0} → Bus B → ℕ → B → Result (ℕ × B)
read_uint32 bus address b = bus.read 4 address b

abbrev pub read_uint64 : {B : Type 0} → Bus B → ℕ → B → Result (ℕ × B)
read_uint64 bus address b = bus.read 8 address b

-- Bus::WriteUInt8, WriteUInt16, WriteUInt32, WriteUInt64
abbrev pub write_uint8 : {B : Type 0} → Bus B → ℕ → ℕ → B → Result B
write_uint8 bus address value b = bus.write 1 address value b

abbrev pub write_uint16 : {B : Type 0} → Bus B → ℕ → ℕ → B → Result B
write_uint16 bus address value b = bus.write 2 address value b

abbrev pub write_uint32 : {B : Type 0} → Bus B → ℕ → ℕ → B → Result B
write_uint32 bus address value b = bus.write 4 address value b

abbrev pub write_uint64 : {B : Type 0} → Bus B → ℕ → ℕ → B → Result B
write_uint64 bus address value b = bus.write 8 address value b
