-- ===== src/Cpu/MemoryAccessUnit.antt =====
-- src/bin/rafi-emu/cpu/MemoryAccessUnit.h and .cpp: the unit's fields, and what the walks of the
-- page table share. `m_pEventList` is state, so it is passed on its own (Access).
pub mod Check
pub mod Translate
pub mod Walk
pub mod Access
pub mod Contract
pub mod Permission
use rafi_1st.Base.{
  ℕ, ◌^◌, ◌-◌, ◌%◌, ◌≡◌, ◌∙◌, arith, Bool, true, false, not, ◌&&◌, ◌||◌, bit_and, ◌==◌,
  if◌then◌else◌, Option, none, some,
}
use rafi_1st.Base.Bits.{test_bit-bit_and, test_bit-ones, test_bit-mod, eq_of_bits}
use rafi_1st.BitField.{Member, get_member, set_member}
use rafi_1st.RvTypes.{
  SupportedXlen, rv32, rv64, AddressTranslationMode, bare, translation_mode_of_code, is_machine,
  MemoryAccessType, instruction, load, store, PrivilegeLevel, user, supervisor, reserved, machine,
  priv_of_code,
}
use rafi_1st.RvCsr.Status
use rafi_1st.RvCsr.Satp
use rafi_1st.PageTable.Entry
use rafi_1st.Emu.Interface.{Bus, read_uint32, read_uint64, write_uint32, write_uint64}
use rafi_1st.Cpu.Trap.{
  Trap, make_instruction_page_fault_exception, make_load_page_fault_exception,
  make_store_page_fault_exception,
}
use rafi_1st.Cpu.Action.{Action, ◌>>=◌, ◌>>◌, of_read, of_write}
use rafi_1st.Cpu.Csr.{Csr, read_status}

-- m_XLEN, m_pBus and m_pCsr. The unit only reads the registers.
pub record MemoryAccessUnit (B : Type 0) : Type 0 where
  pub xlen : SupportedXlen
  pub bus : Bus B
  pub csr : Csr

abbrev pub is_instruction : MemoryAccessType → Bool
is_instruction instruction = true
is_instruction load = false
is_instruction store = false

abbrev pub is_store : MemoryAccessType → Bool
is_store instruction = false
is_store load = false
is_store store = true

-- Is a one-bit member set?
abbrev pub is_nonzero : ℕ → Bool
is_nonzero a = not (a == 0)

unfoldable pub get_effective_privilege_level : Csr → MemoryAccessType → PrivilegeLevel
get_effective_privilege_level csr access_type =
    if is_nonzero (get_member (read_status csr) Status.mprv) && not (is_instruction access_type)
    then priv_of_code (get_member (read_status csr) Status.mpp)
    else csr.priv

-- The mode that `satp` names
abbrev pub satp_mode : SupportedXlen → ℕ → AddressTranslationMode
satp_mode rv32 satp = translation_mode_of_code (get_member satp Satp.mode_rv32)
satp_mode rv64 satp = translation_mode_of_code (get_member satp Satp.mode_rv64)

unfoldable pub get_address_translation_mode :
    {B : Type 0} → MemoryAccessUnit B → MemoryAccessType → AddressTranslationMode
get_address_translation_mode m access_type =
    if is_machine (get_effective_privilege_level m.csr access_type)
    then bare
    else satp_mode m.xlen m.csr.supervisor_address_translation_protection

abbrev pub make_trap : MemoryAccessType → ℕ → ℕ → Trap
make_trap instruction pc addr = make_instruction_page_fault_exception pc addr
make_trap load pc addr = make_load_page_fault_exception pc addr
make_trap store pc addr = make_store_page_fault_exception pc addr

abbrev pub has : ℕ → Member → Bool
has entry flag = is_nonzero (get_member entry flag)

unfoldable pub check_trap_for_entry : ℕ → MemoryAccessType → ℕ → ℕ → Option Trap
check_trap_for_entry entry access_type pc addr =
    if not (has entry Entry.v) || not (has entry Entry.r) && has entry Entry.w
    then some (make_trap access_type pc addr)
    else none

-- The first `switch` of CheckTrapForLeafEntry: does it return the trap?
abbrev pub level_refuses : PrivilegeLevel → Bool → ℕ → Bool
level_refuses supervisor sum entry = not sum && has entry Entry.u
level_refuses user sum entry = not (has entry Entry.u)
level_refuses reserved sum entry = false
level_refuses machine sum entry = false

-- The second `switch`
abbrev pub access_refuses : MemoryAccessType → Bool → ℕ → Bool
access_refuses instruction mxr entry = not (has entry Entry.x)
access_refuses load mxr entry = not (has entry Entry.r) && not (mxr && has entry Entry.x)
access_refuses store mxr entry = not (has entry Entry.w)

unfoldable pub check_trap_for_leaf_entry : Csr → ℕ → MemoryAccessType → ℕ → ℕ → Option Trap
check_trap_for_leaf_entry csr entry access_type pc addr =
    let status = read_status csr in
    let sum = is_nonzero (get_member status Status.sum) in
    let mxr = is_nonzero (get_member status Status.mxr) in
    if level_refuses (get_effective_privilege_level csr access_type) sum entry
    then some (make_trap access_type pc addr)
    else if access_refuses access_type mxr entry
    then some (make_trap access_type pc addr)
    else none

abbrev pub is_leaf_entry : ℕ → Bool
is_leaf_entry entry = has entry Entry.r || has entry Entry.x

-- The entry that UpdateEntry writes back; `w` is the width of the entry.
unfoldable pub updated_entry : ℕ → ℕ → Bool → ℕ
updated_entry w entry true = set_member w (set_member w entry Entry.a 1) Entry.d 1
updated_entry w entry false = set_member w entry Entry.a 1

-- UpdateEntry<PageTableEntrySv32>
abbrev pub update_entry32 : {B : Type 0} → MemoryAccessUnit B → ℕ → Bool → Action B (Unit {0})
update_entry32 m entry_address is_write = do
  entry ← of_read (read_uint32 m.bus entry_address)
  of_write (write_uint32 m.bus entry_address (updated_entry 32 entry is_write))

-- UpdateEntry<PageTableEntrySv39> and UpdateEntry<PageTableEntrySv48>
abbrev pub update_entry64 : {B : Type 0} → MemoryAccessUnit B → ℕ → Bool → Action B (Unit {0})
update_entry64 m entry_address is_write = do
  entry ← of_read (read_uint64 m.bus entry_address)
  of_write (write_uint64 m.bus entry_address (updated_entry 64 entry is_write))

-- ZeroExtend(width, value) on 64 bits, include/rafi/common/Util.h
abbrev pub zero_extend : ℕ → ℕ → ℕ
zero_extend src_width value = bit_and value (2 ^ src_width - 1)

pub zero_extend_lem : (src_width value : ℕ) → zero_extend src_width value ≡ value % 2 ^ src_width
zero_extend_lem src_width value =
    eq_of_bits (zero_extend src_width value) (value % 2 ^ src_width) λ i.
      test_bit-bit_and value (2 ^ src_width - 1) i
      ∙ ground (arith, test_bit-ones src_width i, test_bit-mod src_width value i)
