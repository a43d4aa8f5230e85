-- ===== src/Cpu/MemoryAccessUnit/Walk/Reference.antt =====
-- The page walk on the bits of the entries: what the walks of
-- src/bin/rafi-emu/cpu/MemoryAccessUnit.cpp are compared with. It is that of the privileged
-- architecture but for two things that it has from the program: the address that it gives is cut to
-- 32, 39 or 48 bits, and the walk that translates does not refuse a misaligned large page, which
-- the walk that checks does.
use rafi_1st.Base.{
  ℕ, zero, suc, ◌*◌, ◌/◌, ◌%◌, ◌^◌, ◌==◌, if◌then◌else◌, [], ◌∷◌, switch, not_implemented,
}
use rafi_1st.RvTypes.{
  SupportedXlen, rv32, rv64, AddressTranslationMode, bare, sv32, sv39, sv48, sv57, sv64, other,
  MemoryAccessType, is_machine, is_rv32,
}
use rafi_1st.Cpu.Action.{
  Action, ◌>>=◌, ◌>>◌, return, return_trap, return_if_trap, of_read, of_write, fail,
}
use rafi_1st.Cpu.MemoryAccessUnit.{MemoryAccessUnit, make_trap, is_store}
use rafi_1st.Cpu.MemoryAccessUnit.Permission.{access_level}
use rafi_1st.Cpu.MemoryAccessUnit.Walk.{
  Scheme, slot, ppn, leaf_address, aligned, sv32_scheme, sv39_scheme, sv48_scheme,
}
use rafi_1st.Cpu.MemoryAccessUnit.Walk.Entry.{entry_trap, is_page, page_trap, marked_entry}

-- The mode that satp names: its top bit on RV32, and its top four bits on RV64
abbrev pub satp_names : SupportedXlen → ℕ → AddressTranslationMode
satp_names rv32 satp = if satp / 2 ^ 31 % 2 == 1 then sv32 else bare
satp_names rv64 satp =
    switch (satp / 2 ^ 60 % 16)
      ((0, bare) ∷ (1, sv32) ∷ (8, sv39) ∷ (9, sv48) ∷ (10, sv57) ∷ (11, sv64) ∷ []) other

-- Machine mode does not translate.
unfoldable pub paging_mode :
    {B : Type 0} → MemoryAccessUnit B → MemoryAccessType → AddressTranslationMode
paging_mode m access_type =
    if is_machine (access_level m.csr access_type)
    then bare
    else satp_names m.xlen m.csr.supervisor_address_translation_protection

module _ {B : Type 0} (s : Scheme) (m : MemoryAccessUnit B) (access_type : MemoryAccessType)
    (addr pc : ℕ) where
  -- The entry is read again, and written back with A, and on a store D, set.
  abbrev pub mark : ℕ → Action B (Unit {0})
  mark at = do
    found ← of_read (m.bus.read s.entry_size at)
    of_write
        (m.bus.write s.entry_size at (marked_entry (8 * s.entry_size) found (is_store access_type)))

  abbrev pub page_translate : ℕ → ℕ → ℕ → Action B ℕ
  page_translate level at entry = do
    return_if_trap (page_trap m.csr entry access_type pc addr)
    mark at
    return (leaf_address s level entry addr)

  unfoldable pub table_translate : ℕ → ℕ → Action B ℕ
  table_translate zero base = do
    entry ← of_read (m.bus.read s.entry_size (slot s 0 base addr))
    return_if_trap (entry_trap entry access_type pc addr)
    page_translate 0 (slot s 0 base addr) entry
  table_translate (suc level) base = do
    entry ← of_read (m.bus.read s.entry_size (slot s (suc level) base addr))
    return_if_trap (entry_trap entry access_type pc addr)
    (if is_page entry
        then page_translate (suc level) (slot s (suc level) base addr) entry
        else table_translate level (ppn s entry))

  abbrev pub page_check : ℕ → ℕ → Action B (Unit {0})
  page_check level entry = do
    return_if_trap (page_trap m.csr entry access_type pc addr)
    (if aligned s level entry then return tt else return_trap (make_trap access_type pc addr))

  unfoldable pub table_check : ℕ → ℕ → Action B (Unit {0})
  table_check zero base = do
    entry ← of_read (m.bus.read s.entry_size (slot s 0 base addr))
    return_if_trap (entry_trap entry access_type pc addr)
    return_if_trap (page_trap m.csr entry access_type pc addr)
  table_check (suc level) base = do
    entry ← of_read (m.bus.read s.entry_size (slot s (suc level) base addr))
    return_if_trap (entry_trap entry access_type pc addr)
    (if is_page entry then page_check (suc level) entry else table_check level (ppn s entry))

-- The walk of a mode, from the table that satp names
unfoldable pub reference_translate :
    {B : Type 0}
    → AddressTranslationMode
    → MemoryAccessUnit B
    → MemoryAccessType
    → ℕ
    → ℕ
    → Action B ℕ
unfolding table_translate
reference_translate bare m access_type addr pc =
    return (if is_rv32 m.xlen then addr % 2 ^ 32 else addr)
reference_translate sv32 m access_type addr pc =
    table_translate sv32_scheme m access_type addr pc 1
      (m.csr.supervisor_address_translation_protection % 2 ^ 22)
reference_translate sv39 m access_type addr pc =
    table_translate sv39_scheme m access_type addr pc 2
      (m.csr.supervisor_address_translation_protection % 2 ^ 44)
reference_translate sv48 m access_type addr pc =
    table_translate sv48_scheme m access_type addr pc 3
      (m.csr.supervisor_address_translation_protection % 2 ^ 44)
reference_translate sv57 m access_type addr pc = fail not_implemented
reference_translate sv64 m access_type addr pc = fail not_implemented
reference_translate other m access_type addr pc = fail not_implemented

unfoldable pub reference_check :
    {B : Type 0}
    → AddressTranslationMode
    → MemoryAccessUnit B
    → MemoryAccessType
    → ℕ
    → ℕ
    → Action B (Unit {0})
unfolding table_check
reference_check bare m access_type addr pc = return tt
reference_check sv32 m access_type addr pc =
    table_check sv32_scheme m access_type addr pc 1
      (m.csr.supervisor_address_translation_protection % 2 ^ 22)
reference_check sv39 m access_type addr pc =
    table_check sv39_scheme m access_type addr pc 2
      (m.csr.supervisor_address_translation_protection % 2 ^ 44)
reference_check sv48 m access_type addr pc =
    table_check sv48_scheme m access_type addr pc 3
      (m.csr.supervisor_address_translation_protection % 2 ^ 44)
reference_check sv57 m access_type addr pc = fail not_implemented
reference_check sv64 m access_type addr pc = fail not_implemented
reference_check other m access_type addr pc = fail not_implemented
