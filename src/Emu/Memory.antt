-- ===== src/Emu/Memory.antt =====
-- src/lib/emu/Ram.cpp and Rom.cpp: the memories, as arrays of bytes. LoadFile, which reads a file
-- of the host, is not modelled.
pub mod Laws
use rafi_1st.Base.{
  ℕ, zero, suc, ◌+◌, ◌-◌, ◌*◌, ◌/◌, ◌%◌, ◌^◌, ◌&&◌, ltb, leb, if◌then◌else◌, Result, ok, throw,
  ◌>>=◌, ◌>>◌, require, emu_error, assertion,
}

-- The bytes of `m_pBody`, and of a buffer, as a number of `size` bytes, the lowest first
unfoldable pub load_bytes : (ℕ → ℕ) → ℕ → ℕ → ℕ
load_bytes body zero at = 0
load_bytes body (suc size) at = body at % 256 + 256 * load_bytes body size (suc at)

-- std::memcpy of the bytes of a number into the array
unfoldable pub store_bytes : (ℕ → ℕ) → ℕ → ℕ → ℕ → (ℕ → ℕ)
store_bytes body size at value =
    λ i. if leb at i && ltb i (at + size) then value / 256 ^ (i - at) % 256 else body i

-- class RamImpl with its capacity, and class RomImpl
pub data Memory : Type 0 where
  ram : ℕ → (ℕ → ℕ) → Memory
  rom : (ℕ → ℕ) → Memory

abbrev pub rom_capacity : ℕ
rom_capacity = 4096

-- GetCapacity
abbrev pub get_capacity : Memory → ℕ
get_capacity (ram capacity body) = capacity
get_capacity (rom body) = rom_capacity

-- A new memory holds zeros.
abbrev pub make_ram : ℕ → Memory
make_ram capacity = ram capacity λ _. 0

abbrev pub make_rom : Memory
make_rom = rom λ _. 0

-- Ram::Read asserts the range, Rom::Read checks it with RAFI_EMU_CHECK_ACCESS.
unfoldable pub read : Memory → ℕ → ℕ → Result ℕ
unfolding load_bytes
read (ram capacity body) size address = do
  require (leb ((address + size) % 2 ^ 64) capacity) assertion
  ok (load_bytes body size address)
read (rom body) size address = do
  require (ltb ((address + size + 2 ^ 64 - 1) % 2 ^ 64) rom_capacity) emu_error
  ok (load_bytes body size address)

-- Ram::Write; Rom::Write always throws.
unfoldable pub write : Memory → ℕ → ℕ → ℕ → Result Memory
unfolding store_bytes
write (ram capacity body) size address value = do
  require (leb ((address + size) % 2 ^ 64) capacity) assertion
  ok (ram capacity (store_bytes body size address value))
write (rom body) size address value = throw emu_error
