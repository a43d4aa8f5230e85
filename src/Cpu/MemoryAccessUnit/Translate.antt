-- ===== src/Cpu/MemoryAccessUnit/Translate.antt =====
-- src/bin/rafi-emu/cpu/MemoryAccessUnit.cpp, Translate and TranslateSv32, TranslateSv39,
-- TranslateSv48: the physical address of an access, or a trap. One definition per level of the
-- table.
use rafi_1st.Base.{ℕ, ◌*◌, ◌%◌, ◌^◌, if◌then◌else◌, not_implemented}
use rafi_1st.BitField.{get_member}
use rafi_1st.RvTypes.{
  AddressTranslationMode, bare, sv32, sv39, sv48, sv57, sv64, other, MemoryAccessType, is_rv32,
}
use rafi_1st.RvCsr.Satp
use rafi_1st.PageTable.Sv32
use rafi_1st.PageTable.Sv39
use rafi_1st.PageTable.Sv48
use rafi_1st.Emu.Interface.{read_uint32, read_uint64}
use rafi_1st.Cpu.Action.{Action, ◌>>=◌, ◌>>◌, return, return_if_trap, fail, of_read}
use rafi_1st.Cpu.MemoryAccessUnit.{
  MemoryAccessUnit, get_address_translation_mode, check_trap_for_entry, check_trap_for_leaf_entry,
  is_leaf_entry, update_entry32, update_entry64, zero_extend, is_store,
}

unfoldable pub translate_sv32_entry2 :
    {B : Type 0} → MemoryAccessUnit B → MemoryAccessType → ℕ → ℕ → ℕ → Action B ℕ
translate_sv32_entry2 m access_type addr pc entry1 = do
  entry2 ← of_read (
      read_uint32 m.bus (
        Sv32.physical_address (get_member entry1 Sv32.ppn1) (get_member entry1 Sv32.ppn0)
          (4 * get_member (addr % 2 ^ 32) Sv32.vpn0)))
  return_if_trap (check_trap_for_entry entry2 access_type pc addr)
  return_if_trap (check_trap_for_leaf_entry m.csr entry2 access_type pc addr)
  update_entry32 m
      (Sv32.physical_address (get_member entry1 Sv32.ppn1) (get_member entry1 Sv32.ppn0)
        (4 * get_member (addr % 2 ^ 32) Sv32.vpn0))
      (is_store access_type)
  return (
      zero_extend 32 (
        Sv32.physical_address (get_member entry2 Sv32.ppn1) (get_member entry2 Sv32.ppn0)
          (get_member (addr % 2 ^ 32) Sv32.offset)))

unfoldable pub translate_sv32 :
    {B : Type 0} → MemoryAccessUnit B → MemoryAccessType → ℕ → ℕ → Action B ℕ
unfolding translate_sv32_entry2
translate_sv32 m access_type addr pc = do
  entry1 ← of_read (
      read_uint32 m.bus (
        Sv32.table_address
          (get_member m.csr.supervisor_address_translation_protection Satp.ppn_rv32)
          (4 * get_member (addr % 2 ^ 32) Sv32.vpn1)))
  return_if_trap (check_trap_for_entry entry1 access_type pc addr)
  (if is_leaf_entry entry1
      then (do
        return_if_trap (check_trap_for_leaf_entry m.csr entry1 access_type pc addr)
        update_entry32 m
            (Sv32.table_address
              (get_member m.csr.supervisor_address_translation_protection Satp.ppn_rv32)
              (4 * get_member (addr % 2 ^ 32) Sv32.vpn1))
            (is_store access_type)
        return (
            zero_extend 32 (
              Sv32.physical_address (get_member entry1 Sv32.ppn1)
                (get_member (addr % 2 ^ 32) Sv32.vpn0) (get_member (addr % 2 ^ 32) Sv32.offset))))
      else translate_sv32_entry2 m access_type addr pc entry1)

unfoldable pub translate_sv39_entry3 :
    {B : Type 0} → MemoryAccessUnit B → MemoryAccessType → ℕ → ℕ → ℕ → Action B ℕ
translate_sv39_entry3 m access_type addr pc entry2 = do
  entry3 ← of_read (
      read_uint64 m.bus (
        Sv39.physical_address (get_member entry2 Sv39.ppn2) (get_member entry2 Sv39.ppn1)
          (get_member entry2 Sv39.ppn0) (8 * get_member addr Sv39.vpn0)))
  return_if_trap (check_trap_for_entry entry3 access_type pc addr)
  return_if_trap (check_trap_for_leaf_entry m.csr entry3 access_type pc addr)
  update_entry64 m
      (Sv39.physical_address (get_member entry2 Sv39.ppn2) (get_member entry2 Sv39.ppn1)
        (get_member entry2 Sv39.ppn0) (8 * get_member addr Sv39.vpn0))
      (is_store access_type)
  return (
      zero_extend 39 (
        Sv39.physical_address (get_member entry3 Sv39.ppn2) (get_member entry3 Sv39.ppn1)
          (get_member entry3 Sv39.ppn0) (get_member addr Sv39.offset)))

unfoldable pub translate_sv39_entry2 :
    {B : Type 0} → MemoryAccessUnit B → MemoryAccessType → ℕ → ℕ → ℕ → Action B ℕ
unfolding translate_sv39_entry3
translate_sv39_entry2 m access_type addr pc entry1 = do
  entry2 ← of_read (
      read_uint64 m.bus (
        Sv39.physical_address (get_member entry1 Sv39.ppn2) (get_member entry1 Sv39.ppn1)
          (get_member entry1 Sv39.ppn0) (8 * get_member addr Sv39.vpn1)))
  return_if_trap (check_trap_for_entry entry2 access_type pc addr)
  (if is_leaf_entry entry2
      then (do
        return_if_trap (check_trap_for_leaf_entry m.csr entry2 access_type pc addr)
        update_entry64 m
            (Sv39.physical_address (get_member entry1 Sv39.ppn2) (get_member entry1 Sv39.ppn1)
              (get_member entry1 Sv39.ppn0) (8 * get_member addr Sv39.vpn1))
            (is_store access_type)
        return (
            zero_extend 39 (
              Sv39.physical_address (get_member entry2 Sv39.ppn2) (get_member entry2 Sv39.ppn1)
                (get_member addr Sv39.vpn0) (get_member addr Sv39.offset))))
      else translate_sv39_entry3 m access_type addr pc entry2)

unfoldable pub translate_sv39 :
    {B : Type 0} → MemoryAccessUnit B → MemoryAccessType → ℕ → ℕ → Action B ℕ
unfolding translate_sv39_entry2
translate_sv39 m access_type addr pc = do
  entry1 ← of_read (
      read_uint64 m.bus (
        Sv39.table_address
          (get_member m.csr.supervisor_address_translation_protection Satp.ppn_rv64)
          (8 * get_member addr Sv39.vpn2)))
  return_if_trap (check_trap_for_entry entry1 access_type pc addr)
  (if is_leaf_entry entry1
      then (do
        return_if_trap (check_trap_for_leaf_entry m.csr entry1 access_type pc addr)
        update_entry64 m
            (Sv39.table_address
              (get_member m.csr.supervisor_address_translation_protection Satp.ppn_rv64)
              (8 * get_member addr Sv39.vpn2))
            (is_store access_type)
        return (
            zero_extend 39 (
              Sv39.physical_address (get_member entry1 Sv39.ppn2) (get_member addr Sv39.vpn1)
                (get_member addr Sv39.vpn0) (get_member addr Sv39.offset))))
      else translate_sv39_entry2 m access_type addr pc entry1)

unfoldable pub translate_sv48_entry4 :
    {B : Type 0} → MemoryAccessUnit B → MemoryAccessType → ℕ → ℕ → ℕ → Action B ℕ
translate_sv48_entry4 m access_type addr pc entry3 = do
  entry4 ← of_read (
      read_uint64 m.bus (
        Sv48.physical_address (get_member entry3 Sv48.ppn3) (get_member entry3 Sv48.ppn2)
          (get_member entry3 Sv48.ppn1) (get_member entry3 Sv48.ppn0)
          (8 * get_member addr Sv48.vpn0)))
  return_if_trap (check_trap_for_entry entry4 access_type pc addr)
  return_if_trap (check_trap_for_leaf_entry m.csr entry4 access_type pc addr)
  update_entry64 m
      (Sv48.physical_address (get_member entry3 Sv48.ppn3) (get_member entry3 Sv48.ppn2)
        (get_member entry3 Sv48.ppn1) (get_member entry3 Sv48.ppn0) (8 * get_member addr Sv48.vpn0))
      (is_store access_type)
  return (
      zero_extend 48 (
        Sv48.physical_address (get_member entry4 Sv48.ppn3) (get_member entry4 Sv48.ppn2)
          (get_member entry4 Sv48.ppn1) (get_member entry4 Sv48.ppn0)
          (get_member addr Sv48.offset)))

unfoldable pub translate_sv48_entry3 :
    {B : Type 0} → MemoryAccessUnit B → MemoryAccessType → ℕ → ℕ → ℕ → Action B ℕ
unfolding translate_sv48_entry4
translate_sv48_entry3 m access_type addr pc entry2 = do
  entry3 ← of_read (
      read_uint64 m.bus (
        Sv48.physical_address (get_member entry2 Sv48.ppn3) (get_member entry2 Sv48.ppn2)
          (get_member entry2 Sv48.ppn1) (get_member entry2 Sv48.ppn0)
          (8 * get_member addr Sv48.vpn1)))
  return_if_trap (check_trap_for_entry entry3 access_type pc addr)
  (if is_leaf_entry entry3
      then (do
        return_if_trap (check_trap_for_leaf_entry m.csr entry3 access_type pc addr)
        update_entry64 m
            (Sv48.physical_address (get_member entry2 Sv48.ppn3) (get_member entry2 Sv48.ppn2)
              (get_member entry2 Sv48.ppn1) (get_member entry2 Sv48.ppn0)
              (8 * get_member addr Sv48.vpn1))
            (is_store access_type)
        return (
            zero_extend 48 (
              Sv48.physical_address (get_member entry3 Sv48.ppn3) (get_member entry3 Sv48.ppn2)
                (get_member entry3 Sv48.ppn1) (get_member addr Sv48.vpn0)
                (get_member addr Sv48.offset))))
      else translate_sv48_entry4 m access_type addr pc entry3)

unfoldable pub translate_sv48_entry2 :
    {B : Type 0} → MemoryAccessUnit B → MemoryAccessType → ℕ → ℕ → ℕ → Action B ℕ
unfolding translate_sv48_entry3
translate_sv48_entry2 m access_type addr pc entry1 = do
  entry2 ← of_read (
      read_uint64 m.bus (
        Sv48.physical_address (get_member entry1 Sv48.ppn3) (get_member entry1 Sv48.ppn2)
          (get_member entry1 Sv48.ppn1) (get_member entry1 Sv48.ppn0)
          (8 * get_member addr Sv48.vpn2)))
  return_if_trap (check_trap_for_entry entry2 access_type pc addr)
  (if is_leaf_entry entry2
      then (do
        return_if_trap (check_trap_for_leaf_entry m.csr entry2 access_type pc addr)
        update_entry64 m
            (Sv48.physical_address (get_member entry1 Sv48.ppn3) (get_member entry1 Sv48.ppn2)
              (get_member entry1 Sv48.ppn1) (get_member entry1 Sv48.ppn0)
              (8 * get_member addr Sv48.vpn2))
            (is_store access_type)
        return (
            zero_extend 48 (
              Sv48.physical_address (get_member entry2 Sv48.ppn3) (get_member entry2 Sv48.ppn2)
                (get_member addr Sv48.vpn1) (get_member addr Sv48.vpn0)
                (get_member addr Sv48.offset))))
      else translate_sv48_entry3 m access_type addr pc entry2)

unfoldable pub translate_sv48 :
    {B : Type 0} → MemoryAccessUnit B → MemoryAccessType → ℕ → ℕ → Action B ℕ
unfolding translate_sv48_entry2
translate_sv48 m access_type addr pc = do
  entry1 ← of_read (
      read_uint64 m.bus (
        Sv48.table_address
          (get_member m.csr.supervisor_address_translation_protection Satp.ppn_rv64)
          (8 * get_member addr Sv48.vpn3)))
  return_if_trap (check_trap_for_entry entry1 access_type pc addr)
  (if is_leaf_entry entry1
      then (do
        return_if_trap (check_trap_for_leaf_entry m.csr entry1 access_type pc addr)
        update_entry64 m
            (Sv48.table_address
              (get_member m.csr.supervisor_address_translation_protection Satp.ppn_rv64)
              (8 * get_member addr Sv48.vpn3))
            (is_store access_type)
        return (
            zero_extend 48 (
              Sv48.physical_address (get_member entry1 Sv48.ppn3) (get_member addr Sv48.vpn2)
                (get_member addr Sv48.vpn1) (get_member addr Sv48.vpn0)
                (get_member addr Sv48.offset))))
      else translate_sv48_entry2 m access_type addr pc entry1)

-- TranslateSv57 and TranslateSv64 are not implemented.
unfoldable pub translate_in :
    {B : Type 0}
    → AddressTranslationMode
    → MemoryAccessUnit B
    → MemoryAccessType
    → ℕ
    → ℕ
    → Action B ℕ
unfolding translate_sv32 translate_sv39 translate_sv48
translate_in bare m access_type addr pc =
    return (if is_rv32 m.xlen then zero_extend 32 addr else addr)
translate_in sv32 m access_type addr pc = translate_sv32 m access_type addr pc
translate_in sv39 m access_type addr pc = translate_sv39 m access_type addr pc
translate_in sv48 m access_type addr pc = translate_sv48 m access_type addr pc
translate_in sv57 m access_type addr pc = fail not_implemented
translate_in sv64 m access_type addr pc = fail not_implemented
translate_in other m access_type addr pc = fail not_implemented

unfoldable pub translate : {B : Type 0} → MemoryAccessUnit B → MemoryAccessType → ℕ → ℕ → Action B ℕ
unfolding translate_in
translate m access_type addr pc =
    translate_in (get_address_translation_mode m access_type) m access_type addr pc
