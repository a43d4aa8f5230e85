-- ===== src/Cpu/MemoryAccessUnit/Walk/Entry.antt =====
-- The tests and the update of a page table entry by the bits of the entry and of the status
-- register, and those of src/bin/rafi-emu/cpu/MemoryAccessUnit.cpp against them.
use rafi_1st.Base.{
  ℕ, ◌-◌, ◌%◌, ◌^◌, ◌≤◌, ◌≡◌, ◌∙◌, Bool, true, false, not, ◌&&◌, ◌||◌, ◌==◌, bit_or, arith,
  if◌then◌else◌, Option, none, some,
}
use rafi_1st.Base.Bits.{
  test_bit, test_bit-bit_or, test_bit-mod, test_bit-mul, test_bit-ones, test_bit-two_pow,
  eq_of_bits,
}
use rafi_1st.BitField.{set_member}
use rafi_1st.BitField.Bit.{get_member-bit, test_bit-set_one_wide}
use rafi_1st.RvTypes.{
  MemoryAccessType, instruction, load, store, PrivilegeLevel, user, supervisor, reserved, machine,
}
use rafi_1st.PageTable.Entry
use rafi_1st.Cpu.Trap.{Trap}
use rafi_1st.Cpu.Csr.{Csr}
use rafi_1st.Cpu.MemoryAccessUnit.{
  make_trap, check_trap_for_entry, check_trap_for_leaf_entry, is_leaf_entry, updated_entry,
  level_refuses, access_refuses,
}
use rafi_1st.Cpu.MemoryAccessUnit.Permission.{access_level, effective_level_lem, status_bit}

-- V, R, W, X and U are bits 0 to 4; A and D are bits 6 and 7.
abbrev pub v_bit : ℕ → Bool
v_bit entry = test_bit entry 0

abbrev pub r_bit : ℕ → Bool
r_bit entry = test_bit entry 1

abbrev pub w_bit : ℕ → Bool
w_bit entry = test_bit entry 2

abbrev pub x_bit : ℕ → Bool
x_bit entry = test_bit entry 3

abbrev pub u_bit : ℕ → Bool
u_bit entry = test_bit entry 4

-- An entry is refused that is not valid, or that can be written and not read.
unfoldable pub entry_trap : ℕ → MemoryAccessType → ℕ → ℕ → Option Trap
entry_trap entry access_type pc addr =
    if v_bit entry && (r_bit entry || not (w_bit entry))
    then none
    else some (make_trap access_type pc addr)

-- An entry that can be read or executed is a leaf.
unfoldable pub is_page : ℕ → Bool
is_page entry = r_bit entry || x_bit entry

-- User mode reaches only pages with U, and supervisor mode reaches these only under SUM, bit 18.
abbrev pub level_allows : PrivilegeLevel → ℕ → ℕ → Bool
level_allows user status entry = u_bit entry
level_allows supervisor status entry = not (u_bit entry) || test_bit status 18
level_allows reserved status entry = true
level_allows machine status entry = true

-- A load needs R, or X under MXR, bit 19; a fetch needs X, and a store W.
abbrev pub access_allows : MemoryAccessType → ℕ → ℕ → Bool
access_allows instruction status entry = x_bit entry
access_allows load status entry = r_bit entry || test_bit status 19 && x_bit entry
access_allows store status entry = w_bit entry

unfoldable pub page_trap : Csr → ℕ → MemoryAccessType → ℕ → ℕ → Option Trap
page_trap csr entry access_type pc addr =
    if level_allows (access_level csr access_type) csr.status entry
      && access_allows access_type csr.status entry
    then none
    else some (make_trap access_type pc addr)

-- The entry of `w` bits with A, and on a store D, set
unfoldable pub marked_entry : ℕ → ℕ → Bool → ℕ
marked_entry w entry is_write = bit_or (entry % 2 ^ w) (if is_write then 0xc0 else 0x40)

pub entry_trap_lem :
    (entry : ℕ) (access_type : MemoryAccessType) (pc addr : ℕ)
    → check_trap_for_entry entry access_type pc addr ≡ entry_trap entry access_type pc addr
unfolding check_trap_for_entry entry_trap
entry_trap_lem entry access_type pc addr =
    rw (get_member-bit entry 0, get_member-bit entry 1, get_member-bit entry 2) (ground arith)

pub is_page_lem : (entry : ℕ) → is_leaf_entry entry ≡ is_page entry
unfolding is_page
is_page_lem entry = rw (get_member-bit entry 1, get_member-bit entry 3)

level_lem :
    (level : PrivilegeLevel) (status entry : ℕ)
    → level_refuses level (test_bit status 18) entry ≡ not (level_allows level status entry)
level_lem user status entry = rw (get_member-bit entry 4)
level_lem supervisor status entry = rw (get_member-bit entry 4) (ground arith)
level_lem reserved status entry = ground arith
level_lem machine status entry = ground arith

access_lem :
    (access_type : MemoryAccessType) (status entry : ℕ)
    → access_refuses access_type (test_bit status 19) entry
      ≡ not (access_allows access_type status entry)
access_lem instruction status entry = rw (get_member-bit entry 3)
access_lem load status entry = rw (get_member-bit entry 1, get_member-bit entry 3) (ground arith)
access_lem store status entry = rw (get_member-bit entry 2)

two_tests :
    (a b : Bool) (t : Trap)
    → (if not a then some t else if not b then some t else none) ≡ (if a && b then none else some t)
two_tests a b t = ground arith

pub page_trap_lem :
    (csr : Csr) (entry : ℕ) (access_type : MemoryAccessType) (pc addr : ℕ)
    → check_trap_for_leaf_entry csr entry access_type pc addr
      ≡ page_trap csr entry access_type pc addr
unfolding check_trap_for_leaf_entry page_trap
page_trap_lem csr entry access_type pc addr =
    rw
      (
        effective_level_lem csr access_type,
        status_bit csr 18 (omega arith),
        status_bit csr 19 (omega arith),
        level_lem (access_level csr access_type) csr.status entry,
        access_lem access_type csr.status entry,
      )
      (two_tests (level_allows (access_level csr access_type) csr.status entry)
        (access_allows access_type csr.status entry) (make_trap access_type pc addr))

test_bit-both : (i : ℕ) → test_bit 0xc0 i ≡ (i == 6 || i == 7)
test_bit-both i = test_bit-mul 6 3 i ∙ ground (arith, test_bit-ones 2 (i - 6))

pub marked_entry_lem :
    (w entry : ℕ) (is_write : Bool)
    → 8 ≤ w
    → updated_entry w entry is_write ≡ marked_entry w entry is_write
unfolding updated_entry marked_entry
marked_entry_lem w entry true wide =
    eq_of_bits (updated_entry w entry true) (marked_entry w entry true) λ i. ground (
      arith,
      test_bit-set_one_wide w (set_member w entry Entry.a 1) 7 i (omega arith),
      test_bit-set_one_wide w entry 6 i (omega arith),
      test_bit-bit_or (entry % 2 ^ w) 0xc0 i,
      test_bit-mod w entry i,
      test_bit-both i,
    )
marked_entry_lem w entry false wide =
    eq_of_bits (updated_entry w entry false) (marked_entry w entry false) λ i. ground (
      arith,
      test_bit-set_one_wide w entry 6 i (omega arith),
      test_bit-bit_or (entry % 2 ^ w) 0x40 i,
      test_bit-mod w entry i,
      test_bit-two_pow 6 i,
    )
