-- ===== src/Emu/Bus.antt =====
-- src/lib/emu/Bus.cpp, class BusImpl. A device (include/rafi/emu/IIo.h) is a parameter: its state
-- and what it does on a read and a write. The bus holds each memory and device by value, since
-- src/bin/rafi-emu/System.cpp registers each once.
pub mod RoundTrip
use rafi_1st.Base.{
  ℕ, zero, suc, ◌+◌, ◌-◌, ◌*◌, ◌%◌, ◌^◌, Bool, true, false, ◌&&◌, ◌||◌, ltb, leb, if◌then◌else◌,
  List, [], ◌∷◌, ◌++◌, Result, ok, throw, ◌>>=◌, ◌>>◌, emu_error,
}
use rafi_1st.Util.{int32_to_uint64}
use rafi_1st.Emu.Interface as Interface
use rafi_1st.Emu.Memory.{Memory}
use rafi_1st.Emu.Memory as Memory

-- class IIo: a read and a write at an offset, of a number of bytes
pub record Io (D : Type 0) : Type 0 where
  pub read : ℕ → ℕ → D → Result (ℕ × D)
  pub write : ℕ → ℕ → ℕ → D → Result D

-- struct MemoryInfo and struct IoInfo
pub record Info (A : Type 0) : Type 0 where
  pub target : A
  pub address : ℕ
  pub size : ℕ

-- m_MemoryList and m_IoList
pub record BusState (D : Type 0) : Type 0 where
  pub memory_list : List (Info Memory)
  pub io_list : List (Info D)

-- RegisterMemory and RegisterIo
abbrev pub register_memory : {D : Type 0} → BusState D → Memory → ℕ → ℕ → BusState D
register_memory b memory address size = record b {
  memory_list = b.memory_list ++ record { target = memory; address = address; size = size } ∷ [];
}

abbrev pub register_io : {D : Type 0} → BusState D → D → ℕ → ℕ → BusState D
register_io b io address size = record b {
  io_list = b.io_list ++ record { target = io; address = address; size = size } ∷ [];
}

-- Does the location hold every address from `low` to `high`?
abbrev pub holds : {A : Type 0} → Info A → ℕ → ℕ → Bool
holds info low high = leb info.address low && ltb high ((info.address + info.size) % 2 ^ 64)

-- IsMemoryAddress and IsIoAddress, on their lists
unfoldable pub is_address : {A : Type 0} → List (Info A) → ℕ → ℕ → Bool
is_address [] address access_size = false
is_address (info ∷ infos) address access_size =
    holds info address ((address + access_size + 2 ^ 64 - 1) % 2 ^ 64)
    || is_address infos address access_size

-- static_cast<int>(address - location.address), as the callee's `uint64_t`
abbrev pub offset_in : {A : Type 0} → Info A → ℕ → ℕ
offset_in info address = int32_to_uint64 ((address + 2 ^ 64 - info.address) % 2 ^ 32)

-- ConvertToMemoryLocation and ConvertToIoLocation: the position in the list and the offset
unfoldable pub convert_to_location : {A : Type 0} → List (Info A) → ℕ → Result (Info A × ℕ)
convert_to_location [] address = throw emu_error
convert_to_location (info ∷ infos) address =
    if holds info address address
    then ok (info, offset_in info address)
    else convert_to_location infos address

-- The list after the target at that location is replaced
unfoldable pub replace : {A : Type 0} → List (Info A) → ℕ → A → List (Info A)
replace [] address a = []
replace (info ∷ infos) address a =
    if holds info address address
    then record info { target = a } ∷ infos
    else info ∷ replace infos address a

-- A read from a memory leaves the bus as it is.
unfoldable pub read_memory : {D : Type 0} → ℕ → ℕ → BusState D → Result (ℕ × BusState D)
unfolding convert_to_location
read_memory size address b = do
  (info, offset) ← convert_to_location b.memory_list address
  value ← Memory.read info.target size offset
  ok (value, b)

unfoldable pub read_io : {D : Type 0} → Io D → ℕ → ℕ → BusState D → Result (ℕ × BusState D)
unfolding convert_to_location
read_io io size address b = do
  (info, offset) ← convert_to_location b.io_list address
  (value, d) ← io.read size offset info.target
  ok (value, record b { io_list = replace b.io_list address d })

-- BusImpl::Read. The test of a device looks at one byte.
unfoldable pub read : {D : Type 0} → Io D → ℕ → ℕ → BusState D → Result (ℕ × BusState D)
unfolding read_memory read_io
read io size address b =
    if is_address b.memory_list address size
    then read_memory size address b
    else if is_address b.io_list address 1
    then read_io io size address b
    else throw emu_error

unfoldable pub write_memory : {D : Type 0} → ℕ → ℕ → ℕ → BusState D → Result (BusState D)
unfolding convert_to_location
write_memory size address value b = do
  (info, offset) ← convert_to_location b.memory_list address
  memory ← Memory.write info.target size offset value
  ok (record b { memory_list = replace b.memory_list address memory })

unfoldable pub write_io : {D : Type 0} → Io D → ℕ → ℕ → ℕ → BusState D → Result (BusState D)
unfolding convert_to_location
write_io io size address value b = do
  (info, offset) ← convert_to_location b.io_list address
  d ← io.write size offset value info.target
  ok (record b { io_list = replace b.io_list address d })

-- BusImpl::Write. Both tests look at one byte.
unfoldable pub write : {D : Type 0} → Io D → ℕ → ℕ → ℕ → BusState D → Result (BusState D)
unfolding write_memory write_io
write io size address value b =
    if is_address b.memory_list address 1
    then write_memory size address value b
    else if is_address b.io_list address 1
    then write_io io size address value b
    else throw emu_error

-- Bus::IsValidAddress
abbrev pub is_valid_address : {D : Type 0} → BusState D → ℕ → ℕ → Bool
is_valid_address b address access_size =
    is_address b.memory_list address access_size && is_address b.io_list address access_size

-- What a processor sees of it
abbrev pub bus_of : {D : Type 0} → Io D → Interface.Bus (BusState D)
bus_of io = record {
  read = λ size address b. read io size address b;
  write = λ size address value b. write io size address value b;
}
