-- ===== src/Cpu/MemoryAccessUnit/Walk.antt =====
-- The unrolled walks of src/bin/rafi-emu/cpu/MemoryAccessUnit.cpp in one form for any number of
-- levels, with the program's own tests of an entry.
pub mod Sv32
pub mod Sv39
pub mod Sv48
pub mod Entry
pub mod Reference
pub mod Agreement
pub mod Translate
pub mod Check
use rafi_1st.Base.{
  ℕ, zero, suc, ◌+◌, ◌*◌, ◌/◌, ◌%◌, ◌^◌, Bool, ◌==◌, if◌then◌else◌, not_implemented,
}
use rafi_1st.RvTypes.{
  AddressTranslationMode, bare, sv32, sv39, sv48, sv57, sv64, other, MemoryAccessType, is_rv32,
}
use rafi_1st.Emu.Interface.{Bus}
use rafi_1st.Cpu.Action.{
  Action, ◌>>=◌, ◌>>◌, return, return_trap, return_if_trap, of_read, of_write, fail,
}
use rafi_1st.Cpu.MemoryAccessUnit.{
  MemoryAccessUnit, make_trap, check_trap_for_entry, check_trap_for_leaf_entry, is_leaf_entry,
  updated_entry, is_store, zero_extend,
}

-- The bytes of an entry, the bits of an index, the bits of a page number, and the bits of an
-- address that the emulator keeps.
pub record Scheme : Type 0 where
  pub entry_size : ℕ
  pub index_bits : ℕ
  pub ppn_bits : ℕ
  pub address_bits : ℕ

-- The page number of an entry, and the bits of an address below the index of a level
abbrev pub ppn : Scheme → ℕ → ℕ
ppn s entry = entry / 2 ^ 10 % 2 ^ s.ppn_bits

abbrev pub page_bits : Scheme → ℕ → ℕ
page_bits s level = 12 + s.index_bits * level

-- The address of the entry for `addr` in the table of a level
abbrev pub slot : Scheme → ℕ → ℕ → ℕ → ℕ
slot s level base addr =
    base * 2 ^ 12 + s.entry_size * (addr / 2 ^ page_bits s level % 2 ^ s.index_bits)

-- The address that a leaf of a level gives: the page's number from the entry, and the rest from
-- the virtual address
abbrev pub leaf_address : Scheme → ℕ → ℕ → ℕ → ℕ
leaf_address s level entry addr =
    (ppn s entry / 2 ^ (s.index_bits * level) * 2 ^ page_bits s level
      + addr % 2 ^ page_bits s level)
    % 2 ^ s.address_bits

-- The page of a leaf starts at a multiple of its size.
abbrev pub aligned : Scheme → ℕ → ℕ → Bool
aligned s level entry = ppn s entry % 2 ^ (s.index_bits * level) == 0

module _ {B : Type 0} (s : Scheme) (m : MemoryAccessUnit B) (access_type : MemoryAccessType)
    (addr pc : ℕ) where
  -- The accessed bit, and on a store the dirty bit, of the entry at an address
  abbrev pub mark_entry : ℕ → Action B (Unit {0})
  mark_entry at = do
    found ← of_read (m.bus.read s.entry_size at)
    of_write (
        m.bus.write s.entry_size at (updated_entry (8 * s.entry_size) found (is_store access_type)))

  abbrev pub translate_leaf : ℕ → ℕ → ℕ → Action B ℕ
  translate_leaf level at entry = do
    return_if_trap (check_trap_for_leaf_entry m.csr entry access_type pc addr)
    mark_entry at
    return (leaf_address s level entry addr)

  unfoldable pub walk_translate : ℕ → ℕ → Action B ℕ
  walk_translate zero base = do
    entry ← of_read (m.bus.read s.entry_size (slot s 0 base addr))
    return_if_trap (check_trap_for_entry entry access_type pc addr)
    translate_leaf 0 (slot s 0 base addr) entry
  walk_translate (suc level) base = do
    entry ← of_read (m.bus.read s.entry_size (slot s (suc level) base addr))
    return_if_trap (check_trap_for_entry entry access_type pc addr)
    (if is_leaf_entry entry
        then translate_leaf (suc level) (slot s (suc level) base addr) entry
        else walk_translate level (ppn s entry))

  abbrev pub check_leaf : ℕ → ℕ → Action B (Unit {0})
  check_leaf level entry = do
    return_if_trap (check_trap_for_leaf_entry m.csr entry access_type pc addr)
    (if aligned s level entry then return tt else return_trap (make_trap access_type pc addr))

  unfoldable pub walk_check : ℕ → ℕ → Action B (Unit {0})
  walk_check zero base = do
    entry ← of_read (m.bus.read s.entry_size (slot s 0 base addr))
    return_if_trap (check_trap_for_entry entry access_type pc addr)
    return_if_trap (check_trap_for_leaf_entry m.csr entry access_type pc addr)
  walk_check (suc level) base = do
    entry ← of_read (m.bus.read s.entry_size (slot s (suc level) base addr))
    return_if_trap (check_trap_for_entry entry access_type pc addr)
    (if is_leaf_entry entry then check_leaf (suc level) entry else walk_check level (ppn s entry))

abbrev pub sv32_scheme : Scheme
sv32_scheme = record { entry_size = 4; index_bits = 10; ppn_bits = 22; address_bits = 32 }

abbrev pub sv39_scheme : Scheme
sv39_scheme = record { entry_size = 8; index_bits = 9; ppn_bits = 44; address_bits = 39 }

abbrev pub sv48_scheme : Scheme
sv48_scheme = record { entry_size = 8; index_bits = 9; ppn_bits = 44; address_bits = 48 }

-- The walk of a mode, from the table that `satp` names
unfoldable pub translate_by_walk :
    {B : Type 0}
    → AddressTranslationMode
    → MemoryAccessUnit B
    → MemoryAccessType
    → ℕ
    → ℕ
    → Action B ℕ
unfolding walk_translate
translate_by_walk bare m access_type addr pc =
    return (if is_rv32 m.xlen then zero_extend 32 addr else addr)
translate_by_walk sv32 m access_type addr pc =
    walk_translate sv32_scheme m access_type addr pc 1
      (m.csr.supervisor_address_translation_protection % 2 ^ 22)
translate_by_walk sv39 m access_type addr pc =
    walk_translate sv39_scheme m access_type addr pc 2
      (m.csr.supervisor_address_translation_protection % 2 ^ 44)
translate_by_walk sv48 m access_type addr pc =
    walk_translate sv48_scheme m access_type addr pc 3
      (m.csr.supervisor_address_translation_protection % 2 ^ 44)
translate_by_walk sv57 m access_type addr pc = fail not_implemented
translate_by_walk sv64 m access_type addr pc = fail not_implemented
translate_by_walk other m access_type addr pc = fail not_implemented

unfoldable pub check_by_walk :
    {B : Type 0}
    → AddressTranslationMode
    → MemoryAccessUnit B
    → MemoryAccessType
    → ℕ
    → ℕ
    → Action B (Unit {0})
unfolding walk_check
check_by_walk bare m access_type addr pc = return tt
check_by_walk sv32 m access_type addr pc =
    walk_check sv32_scheme m access_type addr pc 1
      (m.csr.supervisor_address_translation_protection % 2 ^ 22)
check_by_walk sv39 m access_type addr pc =
    walk_check sv39_scheme m access_type addr pc 2
      (m.csr.supervisor_address_translation_protection % 2 ^ 44)
check_by_walk sv48 m access_type addr pc =
    walk_check sv48_scheme m access_type addr pc 3
      (m.csr.supervisor_address_translation_protection % 2 ^ 44)
check_by_walk sv57 m access_type addr pc = fail not_implemented
check_by_walk sv64 m access_type addr pc = fail not_implemented
check_by_walk other m access_type addr pc = fail not_implemented
