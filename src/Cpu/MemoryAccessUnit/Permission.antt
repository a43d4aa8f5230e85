-- ===== src/Cpu/MemoryAccessUnit/Permission.antt =====
-- Which accesses a page allows, against the rules of the privileged architecture, and what an
-- access records in the page's entry.
use rafi_1st.Base.{
  ℕ, zero, suc, refl, ◌/◌, ◌%◌, ◌^◌, ◌<◌, ◌≤◌, ◌≡◌, ◌↔◌, ap, ◌∙◌, sym, Bool, true, false, ◌&&◌,
  ◌||◌, ◌==◌, arith, if◌then◌else◌, none, some,
}
use rafi_1st.Base.Bits.{test_bit}
use rafi_1st.BitField.{bit, get_member, set_member}
use rafi_1st.BitField.Bit.{get_member-bit, test_bit-set_one}
use rafi_1st.BitField.Laws.{get_member_lem, set_member-lt}
use rafi_1st.RvTypes.{
  MemoryAccessType, instruction, load, store, PrivilegeLevel, user, supervisor, reserved, machine,
  priv_of_code,
}
use rafi_1st.RvCsr.Status
use rafi_1st.PageTable.Entry
use rafi_1st.Cpu.Trap.{Trap}
use rafi_1st.Cpu.Csr.{Csr, read_status}
use rafi_1st.Cpu.Csr.Fields.{test_bit-read_status, get_member-read_status_wide}
use rafi_1st.Cpu.MemoryAccessUnit.{
  get_effective_privilege_level, make_trap, is_nonzero, level_refuses, access_refuses,
  check_trap_for_leaf_entry, updated_entry,
}

-- The level that an access is checked at: a fetch has the level of the hart, and so has a load or a
-- store unless MPRV, bit 17 of the status register, is set; then it has the level in MPP, bits 11
-- and 12.
abbrev pub level_numbered : ℕ → PrivilegeLevel
level_numbered n =
    if n == 0 then user else if n == 1 then supervisor else if n == 2 then reserved else machine

abbrev pub data_level : Csr → PrivilegeLevel
data_level csr =
    if test_bit csr.status 17 then level_numbered (csr.status / 2 ^ 11 % 4) else csr.priv

abbrev pub access_level : Csr → MemoryAccessType → PrivilegeLevel
access_level csr instruction = csr.priv
access_level csr load = data_level csr
access_level csr store = data_level csr

-- The entry's page allows the access at that level: user mode needs U, supervisor mode needs SUM to
-- reach a page with U, a fetch needs X, a load needs R, or X under MXR, and a store needs W.
pub record IsAllowed (csr : Csr) (entry : ℕ) (access_type : MemoryAccessType) : Type 0 where
  pub user_page : access_level csr access_type ≡ user → test_bit entry 4 ≡ true
  pub supervisor_page :
      access_level csr access_type ≡ supervisor
      → test_bit entry 4 ≡ true
      → test_bit csr.status 18 ≡ true
  pub executable : access_type ≡ instruction → test_bit entry 3 ≡ true
  pub readable :
      access_type ≡ load
      → test_bit entry 1 ≡ false
      → (test_bit csr.status 19 ≡ true) × (test_bit entry 3 ≡ true)
  pub writable : access_type ≡ store → test_bit entry 2 ≡ true

-- The two tests, on the bits
level_lem :
    (level : PrivilegeLevel) (sum : Bool) (entry : ℕ)
    → (level_refuses level sum entry ≡ false) ↔ (
        (level ≡ user → test_bit entry 4 ≡ true)
        × (level ≡ supervisor → test_bit entry 4 ≡ true → sum ≡ true))
level_lem user sum entry = rw (get_member-bit entry 4) (ground arith)
level_lem supervisor sum entry = rw (get_member-bit entry 4) (ground arith)
level_lem reserved sum entry = ground arith
level_lem machine sum entry = ground arith

access_lem :
    (access_type : MemoryAccessType) (mxr : Bool) (entry : ℕ)
    → (access_refuses access_type mxr entry ≡ false) ↔ (
        (access_type ≡ instruction → test_bit entry 3 ≡ true)
        × (access_type ≡ load → test_bit entry 1 ≡ false → (mxr ≡ true) × (test_bit entry 3 ≡ true))
        × (access_type ≡ store → test_bit entry 2 ≡ true))
access_lem instruction mxr entry = rw (get_member-bit entry 3) (ground arith)
access_lem load mxr entry = rw (get_member-bit entry 1, get_member-bit entry 3) (ground arith)
access_lem store mxr entry = rw (get_member-bit entry 2) (ground arith)

pub status_bit :
    (csr : Csr) (k : ℕ)
    → k < 31
    → is_nonzero (get_member (read_status csr) (bit k)) ≡ test_bit csr.status k
status_bit csr k low = get_member-bit (read_status csr) k ∙ test_bit-read_status csr k low

-- The code's level is that of the rules.
priv_of_code_lem : (n : ℕ) → priv_of_code n ≡ level_numbered n
priv_of_code_lem zero = refl
priv_of_code_lem (suc zero) = refl
priv_of_code_lem (suc (suc zero)) = refl
priv_of_code_lem (suc (suc (suc n))) = ground arith

mpp_lem :
    (csr : Csr)
    → priv_of_code (get_member (read_status csr) Status.mpp)
      ≡ level_numbered (csr.status / 2 ^ 11 % 4)
mpp_lem csr =
    priv_of_code_lem (get_member (read_status csr) Status.mpp)
    ∙ ap level_numbered (
        get_member-read_status_wide csr Status.mpp (omega arith)
        ∙ get_member_lem csr.status Status.mpp)

pub effective_level_lem :
    (csr : Csr) (access_type : MemoryAccessType)
    → get_effective_privilege_level csr access_type ≡ access_level csr access_type
unfolding get_effective_privilege_level
effective_level_lem csr instruction = ground arith
effective_level_lem csr load = rw (status_bit csr 17 (omega arith), mpp_lem csr) (ground arith)
effective_level_lem csr store = rw (status_bit csr 17 (omega arith), mpp_lem csr) (ground arith)

both :
    (a b : Bool) (t : Trap)
    → ((if a then some t else if b then some t else none) ≡ none) ↔ ((a ≡ false) × (b ≡ false))
both true b t = ground arith
both false true t = ground arith
both false false t = ground arith

-- `CheckTrapForLeafEntry` lets an access through exactly when the page allows it.
pub check_trap_for_leaf_entry-none_iff :
    (csr : Csr) (entry : ℕ) (access_type : MemoryAccessType) (pc addr : ℕ)
    → (check_trap_for_leaf_entry csr entry access_type pc addr ≡ none)
      ↔ IsAllowed csr entry access_type
unfolding check_trap_for_leaf_entry
check_trap_for_leaf_entry-none_iff csr entry access_type pc addr =
    let level = get_effective_privilege_level csr access_type in
    let sum = is_nonzero (get_member (read_status csr) Status.sum) in
    let mxr = is_nonzero (get_member (read_status csr) Status.mxr) in
    let sum_bit = status_bit csr 18 (omega arith) in
    let mxr_bit = status_bit csr 19 (omega arith) in
    let tests =
      both (level_refuses level sum entry) (access_refuses access_type mxr entry)
        (make_trap access_type pc addr) in
    let by_level = level_lem level sum entry in
    let rule = effective_level_lem csr access_type in
    let by_access = access_lem access_type mxr entry in
    (
      (λ e.
          let passed = tests.0 e in
          let l = by_level.0 passed.0 in
          let a = by_access.0 passed.1 in
          record {
            user_page = λ u. l.0 (rule ∙ u);
            supervisor_page = λ s u. sym sum_bit ∙ l.1 (rule ∙ s) u;
            executable = a.0;
            readable = λ t n. (sym mxr_bit ∙ (a.1 t n).0, (a.1 t n).1);
            writable = a.2;
          }),
      (λ p. tests.1 (
        by_level.1 (
          (λ u. p.user_page (sym rule ∙ u)),
          (λ s u. sum_bit ∙ p.supervisor_page (sym rule ∙ s) u),
        ),
        by_access.1
            (p.executable, (λ t n. (mxr_bit ∙ (p.readable t n).0, (p.readable t n).1)), p.writable),
      )),
    )

-- `UpdateEntry` sets the accessed bit, and on a store the dirty bit, of an entry of 32 or 64 bits,
-- and changes no other bit.
pub test_bit-updated_entry :
    (w entry : ℕ) (is_write : Bool) (i : ℕ)
    → 8 ≤ w
    → entry < 2 ^ w
    → test_bit (updated_entry w entry is_write) i
      ≡ (test_bit entry i || i == 6 || (is_write && i == 7))
unfolding updated_entry
test_bit-updated_entry w entry true i wide small = ground (
  arith,
  test_bit-set_one w (set_member w entry Entry.a 1) 7 i
      (set_member-lt w entry Entry.a 1 small (omega arith)) (omega arith),
  test_bit-set_one w entry 6 i small (omega arith),
)
test_bit-updated_entry w entry false i wide small =
    ground (arith, test_bit-set_one w entry 6 i small (omega arith))
