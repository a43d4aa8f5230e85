-- ===== src/Cpu/MemoryAccessUnit/Contract.antt =====
-- A check that passes and the translation after it. `LoadUInt8` and the others drop the trap that
-- `Translate` returns, and read the address that it would have left unset.
use rafi_1st.Base.{
  ℕ, zero, suc, ◌*◌, ◌%◌, ◌^◌, true, false, not, ◌&&◌, ◌||◌, ◌≡◌, ◌∙◌, sym, subst, Bool, Option,
  none, some, ok, if◌then◌else◌,
}
use rafi_1st.BitField.{get_member}
use rafi_1st.RvTypes.{
  AddressTranslationMode, bare, sv32, sv39, sv48, sv57, sv64, other, MemoryAccessType, is_rv32,
}
use rafi_1st.PageTable.Sv48.{vpn0, vpn1}
use rafi_1st.Cpu.Trap.{Trap}
use rafi_1st.PageTable.Entry
use rafi_1st.RvCsr.Status
use rafi_1st.Cpu.Csr.{Csr, read_status}
use rafi_1st.Cpu.Action.{Action, value, of_read, of_write, return, return_if_trap, ◌>>◌}
use rafi_1st.Cpu.Action.Follows.{
  NotTrapped, by_value, Follows, Follows-check, Follows-any, Follows-step, Follows-checked,
  Follows-if, NotTrapped-then, NotTrapped-read, NotTrapped-write,
}
use rafi_1st.Cpu.MemoryAccessUnit.{
  MemoryAccessUnit, get_address_translation_mode, make_trap, check_trap_for_entry,
  check_trap_for_leaf_entry, is_leaf_entry, is_store, updated_entry, has, is_nonzero, zero_extend,
  level_refuses, access_refuses, get_effective_privilege_level,
}
use rafi_1st.Cpu.MemoryAccessUnit.Check.{check_trap}
use rafi_1st.Cpu.MemoryAccessUnit.Translate.{translate}
use rafi_1st.Cpu.MemoryAccessUnit.Walk.{
  Scheme, walk_translate, walk_check, translate_by_walk, check_by_walk, slot, ppn, translate_leaf,
  mark_entry, leaf_address, sv32_scheme, sv39_scheme, sv48_scheme,
}
use rafi_1st.Cpu.MemoryAccessUnit.Walk.Check.{check_trap-eq-walk}
use rafi_1st.Cpu.MemoryAccessUnit.Walk.Translate.{translate-eq-walk}

same_test :
    (b : Bool) (t t' : Trap) {o o' : Option Trap}
    → (o ≡ none → o' ≡ none)
    → (if b then some t else o) ≡ none
    → (if b then some t' else o') ≡ none
same_test true t t' h e = cc
same_test false t t' h e = h e

-- Whether an entry is refused does not depend on the program counter.
entry_pass :
    (entry : ℕ) (access_type : MemoryAccessType) (pc pc' addr : ℕ)
    → check_trap_for_entry entry access_type pc addr ≡ none
    → check_trap_for_entry entry access_type pc' addr ≡ none
unfolding check_trap_for_entry
entry_pass entry access_type pc pc' addr =
    same_test (not (has entry Entry.v) || not (has entry Entry.r) && has entry Entry.w)
      (make_trap access_type pc addr) (make_trap access_type pc' addr) λ e. e

leaf_pass :
    (csr : Csr) (entry : ℕ) (access_type : MemoryAccessType) (pc pc' addr : ℕ)
    → check_trap_for_leaf_entry csr entry access_type pc addr ≡ none
    → check_trap_for_leaf_entry csr entry access_type pc' addr ≡ none
unfolding check_trap_for_leaf_entry
leaf_pass csr entry access_type pc pc' addr =
    same_test
      (level_refuses (get_effective_privilege_level csr access_type)
        (is_nonzero (get_member (read_status csr) Status.sum)) entry)
      (make_trap access_type pc addr) (make_trap access_type pc' addr)
      (same_test
        (access_refuses access_type (is_nonzero (get_member (read_status csr) Status.mxr)) entry)
        (make_trap access_type pc addr) (make_trap access_type pc' addr) λ e. e)

module _ {B : Type 0} (s : Scheme) (m : MemoryAccessUnit B) (access_type : MemoryAccessType)
    (addr pc pc' : ℕ) where
  marked :
      (level at entry : ℕ) (b : B)
      → NotTrapped
          ((mark_entry s m access_type addr pc' at >> return (leaf_address s level entry addr)) b)
  marked level at entry b =
      NotTrapped-then
        (NotTrapped-then (NotTrapped-read (m.bus.read s.entry_size at) b)
          (λ found. of_write (
            m.bus.write s.entry_size at
              (updated_entry (8 * s.entry_size) found (is_store access_type))))
          (λ found b'.
            NotTrapped-write
              (m.bus.write s.entry_size at
                (updated_entry (8 * s.entry_size) found (is_store access_type)))
              b'))
        (λ _. return (leaf_address s level entry addr))
        (λ _ b'. by_value (leaf_address s level entry addr) b')

  -- At the leaf: the same check, and then only the bus can fail.
  leaf-Follows :
      (level at entry : ℕ) (k : Action B (Unit {0})) (b : B)
      → Follows
          ((return_if_trap (check_trap_for_leaf_entry m.csr entry access_type pc addr) >> k) b)
          (translate_leaf s m access_type addr pc' level at entry b)
  leaf-Follows level at entry k b =
      Follows-checked (check_trap_for_leaf_entry m.csr entry access_type pc addr)
        (check_trap_for_leaf_entry m.csr entry access_type pc' addr) k
        (mark_entry s m access_type addr pc' at >> return (leaf_address s level entry addr)) b
        (leaf_pass m.csr entry access_type pc pc' addr)
        (Follows-any (k b) _ (marked level at entry b))

  walk-Follows :
      (level base : ℕ) (b : B)
      → Follows
          (walk_check s m access_type addr pc level base b)
          (walk_translate s m access_type addr pc' level base b)
  unfolding walk_check walk_translate
  walk-Follows zero base b =
      Follows-step (of_read (m.bus.read s.entry_size (slot s 0 base addr)) b) _ _ λ entry b'.
        Follows-checked (check_trap_for_entry entry access_type pc addr)
          (check_trap_for_entry entry access_type pc' addr) _ _ b'
          (entry_pass entry access_type pc pc' addr)
          (Follows-check (check_trap_for_leaf_entry m.csr entry access_type pc addr)
            (check_trap_for_leaf_entry m.csr entry access_type pc' addr) _ b'
            (leaf_pass m.csr entry access_type pc pc' addr)
            (marked 0 (slot s 0 base addr) entry b'))
  walk-Follows (suc level) base b =
      Follows-step (of_read (m.bus.read s.entry_size (slot s (suc level) base addr)) b) _ _
        λ entry b'.
          Follows-checked (check_trap_for_entry entry access_type pc addr)
            (check_trap_for_entry entry access_type pc' addr) _ _ b'
            (entry_pass entry access_type pc pc' addr)
            (Follows-if (is_leaf_entry entry) _ _ _ _ b'
              (leaf-Follows (suc level) (slot s (suc level) base addr) entry _ b')
              (walk-Follows level (ppn s entry) b'))

module _ {B : Type 0} (m : MemoryAccessUnit B) (access_type : MemoryAccessType) (addr pc pc' : ℕ)
    (b : B) where
  by_walk-Follows :
      (mode : AddressTranslationMode)
      → Follows
          (check_by_walk mode m access_type addr pc b)
          (translate_by_walk mode m access_type addr pc' b)
  unfolding check_by_walk translate_by_walk
  by_walk-Follows bare = λ u s e. by_value (if is_rv32 m.xlen then zero_extend 32 addr else addr) b
  by_walk-Follows sv32 =
      walk-Follows sv32_scheme m access_type addr pc pc' 1
        (m.csr.supervisor_address_translation_protection % 2 ^ 22) b
  by_walk-Follows sv39 =
      walk-Follows sv39_scheme m access_type addr pc pc' 2
        (m.csr.supervisor_address_translation_protection % 2 ^ 44) b
  by_walk-Follows sv48 =
      walk-Follows sv48_scheme m access_type addr pc pc' 3
        (m.csr.supervisor_address_translation_protection % 2 ^ 44) b
  by_walk-Follows sv57 = λ u s e. cc
  by_walk-Follows sv64 = λ u s e. cc
  by_walk-Follows other = λ u s e. cc

-- Where `CheckTrap` passes, `Translate` from the same state does not trap, whatever the program
-- counter it is given: it returns an address, or the bus throws. In Sv48 this is said of addresses
-- with the same VPN[1] and VPN[0].
pub translate-NotTrapped :
    {B : Type 0} (m : MemoryAccessUnit B) (access_type : MemoryAccessType) (addr pc pc' : ℕ)
    (b b' : B)
    → (get_address_translation_mode m access_type ≡ sv48
        → get_member addr vpn1 ≡ get_member addr vpn0)
    → check_trap m access_type pc addr b ≡ ok (value tt, b')
    → NotTrapped (translate m access_type addr pc' b)
translate-NotTrapped m access_type addr pc pc' b b' same_index passed =
    subst NotTrapped (sym (translate-eq-walk m access_type addr pc' b)) (
      by_walk-Follows m access_type addr pc pc' b (get_address_translation_mode m access_type) tt b'
        (sym (check_trap-eq-walk m access_type pc addr b same_index) ∙ passed))
