-- ===== src/Cpu/MemoryAccessUnit/Check.antt =====
-- src/bin/rafi-emu/cpu/MemoryAccessUnit.cpp, CheckTrap and CheckTrapSv32, CheckTrapSv39,
-- CheckTrapSv48: would an access trap? One definition per level of the table.
use rafi_1st.Base.{ℕ, ◌*◌, ◌%◌, ◌^◌, ◌&&◌, ◌==◌, if◌then◌else◌, not_implemented}
use rafi_1st.BitField.{get_member}
use rafi_1st.RvTypes.{
  AddressTranslationMode, bare, sv32, sv39, sv48, sv57, sv64, other, MemoryAccessType,
}
use rafi_1st.RvCsr.Satp
use rafi_1st.PageTable.Sv32
use rafi_1st.PageTable.Sv39
use rafi_1st.PageTable.Sv48
use rafi_1st.Emu.Interface.{read_uint32, read_uint64}
use rafi_1st.Cpu.Action.{Action, ◌>>=◌, ◌>>◌, return, return_trap, return_if_trap, fail, of_read}
use rafi_1st.Cpu.MemoryAccessUnit.{
  MemoryAccessUnit, get_address_translation_mode, make_trap, check_trap_for_entry,
  check_trap_for_leaf_entry, is_leaf_entry,
}

unfoldable pub check_trap_sv32_entry2 :
    {B : Type 0} → MemoryAccessUnit B → MemoryAccessType → ℕ → ℕ → ℕ → Action B (Unit {0})
check_trap_sv32_entry2 m access_type pc addr entry1 = do
  entry2 ← of_read (
      read_uint32 m.bus (
        Sv32.physical_address (get_member entry1 Sv32.ppn1) (get_member entry1 Sv32.ppn0)
          (4 * get_member (addr % 2 ^ 32) Sv32.vpn0)))
  return_if_trap (check_trap_for_entry entry2 access_type pc addr)
  return_if_trap (check_trap_for_leaf_entry m.csr entry2 access_type pc addr)

unfoldable pub check_trap_sv32 :
    {B : Type 0} → MemoryAccessUnit B → MemoryAccessType → ℕ → ℕ → Action B (Unit {0})
unfolding check_trap_sv32_entry2
check_trap_sv32 m access_type pc addr = do
  entry1 ← of_read (
      read_uint32 m.bus (
        Sv32.table_address
          (get_member m.csr.supervisor_address_translation_protection Satp.ppn_rv32)
          (4 * get_member (addr % 2 ^ 32) Sv32.vpn1)))
  return_if_trap (check_trap_for_entry entry1 access_type pc addr)
  (if is_leaf_entry entry1
      then (do
        return_if_trap (check_trap_for_leaf_entry m.csr entry1 access_type pc addr)
        (if get_member entry1 Sv32.ppn0 == 0
            then return tt
            else return_trap (make_trap access_type pc addr)))
      else check_trap_sv32_entry2 m access_type pc addr entry1)

unfoldable pub check_trap_sv39_entry3 :
    {B : Type 0} → MemoryAccessUnit B → MemoryAccessType → ℕ → ℕ → ℕ → Action B (Unit {0})
check_trap_sv39_entry3 m access_type pc addr entry2 = do
  entry3 ← of_read (
      read_uint64 m.bus (
        Sv39.physical_address (get_member entry2 Sv39.ppn2) (get_member entry2 Sv39.ppn1)
          (get_member entry2 Sv39.ppn0) (8 * get_member addr Sv39.vpn0)))
  return_if_trap (check_trap_for_entry entry3 access_type pc addr)
  return_if_trap (check_trap_for_leaf_entry m.csr entry3 access_type pc addr)

unfoldable pub check_trap_sv39_entry2 :
    {B : Type 0} → MemoryAccessUnit B → MemoryAccessType → ℕ → ℕ → ℕ → Action B (Unit {0})
unfolding check_trap_sv39_entry3
check_trap_sv39_entry2 m access_type pc addr entry1 = do
  entry2 ← of_read (
      read_uint64 m.bus (
        Sv39.physical_address (get_member entry1 Sv39.ppn2) (get_member entry1 Sv39.ppn1)
          (get_member entry1 Sv39.ppn0) (8 * get_member addr Sv39.vpn1)))
  return_if_trap (check_trap_for_entry entry2 access_type pc addr)
  (if is_leaf_entry entry2
      then (do
        return_if_trap (check_trap_for_leaf_entry m.csr entry2 access_type pc addr)
        (if get_member entry2 Sv39.ppn0 == 0
            then return tt
            else return_trap (make_trap access_type pc addr)))
      else check_trap_sv39_entry3 m access_type pc addr entry2)

unfoldable pub check_trap_sv39 :
    {B : Type 0} → MemoryAccessUnit B → MemoryAccessType → ℕ → ℕ → Action B (Unit {0})
unfolding check_trap_sv39_entry2
check_trap_sv39 m access_type pc addr = do
  entry1 ← of_read (
      read_uint64 m.bus (
        Sv39.table_address
          (get_member m.csr.supervisor_address_translation_protection Satp.ppn_rv64)
          (8 * get_member addr Sv39.vpn2)))
  return_if_trap (check_trap_for_entry entry1 access_type pc addr)
  (if is_leaf_entry entry1
      then (do
        return_if_trap (check_trap_for_leaf_entry m.csr entry1 access_type pc addr)
        (if get_member entry1 Sv39.ppn1 == 0 && get_member entry1 Sv39.ppn0 == 0
            then return tt
            else return_trap (make_trap access_type pc addr)))
      else check_trap_sv39_entry2 m access_type pc addr entry1)

-- The fourth level is indexed by VPN1, as in the source.
unfoldable pub check_trap_sv48_entry4 :
    {B : Type 0} → MemoryAccessUnit B → MemoryAccessType → ℕ → ℕ → ℕ → Action B (Unit {0})
check_trap_sv48_entry4 m access_type pc addr entry3 = do
  entry4 ← of_read (
      read_uint64 m.bus (
        Sv48.physical_address (get_member entry3 Sv48.ppn3) (get_member entry3 Sv48.ppn2)
          (get_member entry3 Sv48.ppn1) (get_member entry3 Sv48.ppn0)
          (8 * get_member addr Sv48.vpn1)))
  return_if_trap (check_trap_for_entry entry4 access_type pc addr)
  return_if_trap (check_trap_for_leaf_entry m.csr entry4 access_type pc addr)

unfoldable pub check_trap_sv48_entry3 :
    {B : Type 0} → MemoryAccessUnit B → MemoryAccessType → ℕ → ℕ → ℕ → Action B (Unit {0})
unfolding check_trap_sv48_entry4
check_trap_sv48_entry3 m access_type pc addr entry2 = do
  entry3 ← of_read (
      read_uint64 m.bus (
        Sv48.physical_address (get_member entry2 Sv48.ppn3) (get_member entry2 Sv48.ppn2)
          (get_member entry2 Sv48.ppn1) (get_member entry2 Sv48.ppn0)
          (8 * get_member addr Sv48.vpn1)))
  return_if_trap (check_trap_for_entry entry3 access_type pc addr)
  (if is_leaf_entry entry3
      then (do
        return_if_trap (check_trap_for_leaf_entry m.csr entry3 access_type pc addr)
        (if get_member entry3 Sv48.ppn0 == 0
            then return tt
            else return_trap (make_trap access_type pc addr)))
      else check_trap_sv48_entry4 m access_type pc addr entry3)

unfoldable pub check_trap_sv48_entry2 :
    {B : Type 0} → MemoryAccessUnit B → MemoryAccessType → ℕ → ℕ → ℕ → Action B (Unit {0})
unfolding check_trap_sv48_entry3
check_trap_sv48_entry2 m access_type pc addr entry1 = do
  entry2 ← of_read (
      read_uint64 m.bus (
        Sv48.physical_address (get_member entry1 Sv48.ppn3) (get_member entry1 Sv48.ppn2)
          (get_member entry1 Sv48.ppn1) (get_member entry1 Sv48.ppn0)
          (8 * get_member addr Sv48.vpn2)))
  return_if_trap (check_trap_for_entry entry2 access_type pc addr)
  (if is_leaf_entry entry2
      then (do
        return_if_trap (check_trap_for_leaf_entry m.csr entry2 access_type pc addr)
        (if get_member entry2 Sv48.ppn1 == 0 && get_member entry2 Sv48.ppn0 == 0
            then return tt
            else return_trap (make_trap access_type pc addr)))
      else check_trap_sv48_entry3 m access_type pc addr entry2)

unfoldable pub check_trap_sv48 :
    {B : Type 0} → MemoryAccessUnit B → MemoryAccessType → ℕ → ℕ → Action B (Unit {0})
unfolding check_trap_sv48_entry2
check_trap_sv48 m access_type pc addr = do
  entry1 ← of_read (
      read_uint64 m.bus (
        Sv48.table_address
          (get_member m.csr.supervisor_address_translation_protection Satp.ppn_rv64)
          (8 * get_member addr Sv48.vpn3)))
  return_if_trap (check_trap_for_entry entry1 access_type pc addr)
  (if is_leaf_entry entry1
      then (do
        return_if_trap (check_trap_for_leaf_entry m.csr entry1 access_type pc addr)
        (if get_member entry1 Sv48.ppn2 == 0
              && get_member entry1 Sv48.ppn1 == 0
              && get_member entry1 Sv48.ppn0 == 0
            then return tt
            else return_trap (make_trap access_type pc addr)))
      else check_trap_sv48_entry2 m access_type pc addr entry1)

-- CheckTrapSv57 and CheckTrapSv64 are not implemented.
unfoldable pub check_trap_in :
    {B : Type 0}
    → AddressTranslationMode
    → MemoryAccessUnit B
    → MemoryAccessType
    → ℕ
    → ℕ
    → Action B (Unit {0})
unfolding check_trap_sv32 check_trap_sv39 check_trap_sv48
check_trap_in bare m access_type pc addr = return tt
check_trap_in sv32 m access_type pc addr = check_trap_sv32 m access_type pc addr
check_trap_in sv39 m access_type pc addr = check_trap_sv39 m access_type pc addr
check_trap_in sv48 m access_type pc addr = check_trap_sv48 m access_type pc addr
check_trap_in sv57 m access_type pc addr = fail not_implemented
check_trap_in sv64 m access_type pc addr = fail not_implemented
check_trap_in other m access_type pc addr = fail not_implemented

unfoldable pub check_trap :
    {B : Type 0} → MemoryAccessUnit B → MemoryAccessType → ℕ → ℕ → Action B (Unit {0})
unfolding check_trap_in
check_trap m access_type pc addr =
    check_trap_in (get_address_translation_mode m access_type) m access_type pc addr
