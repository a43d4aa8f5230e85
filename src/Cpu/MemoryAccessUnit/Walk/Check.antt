-- ===== src/Cpu/MemoryAccessUnit/Walk/Check.antt =====
-- The unrolled walks of `CheckTrap` do what the walk for any number of levels does, and that what
-- the walk on the bits does.
use rafi_1st.Base.{ℕ, ◌%◌, ◌^◌, ◌≡◌, refl}
use rafi_1st.BitField.{get_member}
use rafi_1st.RvTypes.{
  AddressTranslationMode, bare, sv32, sv39, sv48, sv57, sv64, other, MemoryAccessType,
}
use rafi_1st.PageTable.Sv48.{vpn0, vpn1}
use rafi_1st.Cpu.Action.{of_read, return_if_trap}
use rafi_1st.Cpu.Action.Laws.{>>=-cong, if-cong}
use rafi_1st.Cpu.MemoryAccessUnit.{
  MemoryAccessUnit, get_address_translation_mode, is_leaf_entry, check_trap_for_entry,
}
use rafi_1st.Cpu.MemoryAccessUnit.Check.{
  check_trap_sv32_entry2, check_trap_sv32, check_trap_sv39_entry3, check_trap_sv39_entry2,
  check_trap_sv39, check_trap_sv48_entry4, check_trap_sv48_entry3, check_trap_sv48_entry2,
  check_trap_sv48, check_trap_in, check_trap,
}
use rafi_1st.Cpu.MemoryAccessUnit.Walk.{
  walk_check, check_by_walk, sv32_scheme, sv39_scheme, sv48_scheme, slot, ppn,
}
use rafi_1st.Cpu.MemoryAccessUnit.Walk.Sv32
use rafi_1st.Cpu.MemoryAccessUnit.Walk.Sv39
use rafi_1st.Cpu.MemoryAccessUnit.Walk.Sv48

module _ {B : Type 0} (m : MemoryAccessUnit B) (access_type : MemoryAccessType) (addr pc : ℕ) where
  sv32_entry2_lem :
      (entry0 : ℕ) (b : B)
      → check_trap_sv32_entry2 m access_type pc addr entry0 b
        ≡ walk_check sv32_scheme m access_type addr pc 0 (ppn sv32_scheme entry0) b
  unfolding check_trap_sv32_entry2 walk_check
  sv32_entry2_lem entry0 b = rw (Sv32.slot2_lem entry0 addr)

  sv32_entry1_lem :
      (b : B)
      → check_trap_sv32 m access_type pc addr b
        ≡ walk_check sv32_scheme m access_type addr pc 1
            (m.csr.supervisor_address_translation_protection % 2 ^ 22)
            b
  unfolding check_trap_sv32 walk_check
  sv32_entry1_lem b = rw (Sv32.slot1_lem m.csr.supervisor_address_translation_protection addr) (
      >>=-cong
        (of_read (
          m.bus.read 4
            (slot sv32_scheme 1 (m.csr.supervisor_address_translation_protection % 2 ^ 22) addr)))
        (λ entry s. rw (Sv32.aligned1_lem entry) (
          >>=-cong (return_if_trap (check_trap_for_entry entry access_type pc addr))
            (λ _ s'. if-cong (is_leaf_entry entry) _ _ _ _ s' refl (sv32_entry2_lem entry s')) s))
        b)

  sv39_entry3_lem :
      (entry0 : ℕ) (b : B)
      → check_trap_sv39_entry3 m access_type pc addr entry0 b
        ≡ walk_check sv39_scheme m access_type addr pc 0 (ppn sv39_scheme entry0) b
  unfolding check_trap_sv39_entry3 walk_check
  sv39_entry3_lem entry0 b = rw (Sv39.slot3_lem entry0 addr)

  sv39_entry2_lem :
      (entry0 : ℕ) (b : B)
      → check_trap_sv39_entry2 m access_type pc addr entry0 b
        ≡ walk_check sv39_scheme m access_type addr pc 1 (ppn sv39_scheme entry0) b
  unfolding check_trap_sv39_entry2 walk_check
  sv39_entry2_lem entry0 b = rw (Sv39.slot2_lem entry0 addr) (
      >>=-cong (of_read (m.bus.read 8 (slot sv39_scheme 1 (ppn sv39_scheme entry0) addr)))
        (λ entry s. rw (Sv39.aligned2_lem entry) (
          >>=-cong (return_if_trap (check_trap_for_entry entry access_type pc addr))
            (λ _ s'. if-cong (is_leaf_entry entry) _ _ _ _ s' refl (sv39_entry3_lem entry s')) s))
        b)

  sv39_entry1_lem :
      (b : B)
      → check_trap_sv39 m access_type pc addr b
        ≡ walk_check sv39_scheme m access_type addr pc 2
            (m.csr.supervisor_address_translation_protection % 2 ^ 44)
            b
  unfolding check_trap_sv39 walk_check
  sv39_entry1_lem b = rw (Sv39.slot1_lem m.csr.supervisor_address_translation_protection addr) (
      >>=-cong
        (of_read (
          m.bus.read 8
            (slot sv39_scheme 2 (m.csr.supervisor_address_translation_protection % 2 ^ 44) addr)))
        (λ entry s. rw (Sv39.aligned1_lem entry) (
          >>=-cong (return_if_trap (check_trap_for_entry entry access_type pc addr))
            (λ _ s'. if-cong (is_leaf_entry entry) _ _ _ _ s' refl (sv39_entry2_lem entry s')) s))
        b)

  sv48_entry4_lem :
      (same_index : get_member addr vpn1 ≡ get_member addr vpn0) (entry0 : ℕ) (b : B)
      → check_trap_sv48_entry4 m access_type pc addr entry0 b
        ≡ walk_check sv48_scheme m access_type addr pc 0 (ppn sv48_scheme entry0) b
  unfolding check_trap_sv48_entry4 walk_check
  sv48_entry4_lem same_index entry0 b = rw (same_index, Sv48.slot4_lem entry0 addr)

  sv48_entry3_lem :
      (same_index : get_member addr vpn1 ≡ get_member addr vpn0) (entry0 : ℕ) (b : B)
      → check_trap_sv48_entry3 m access_type pc addr entry0 b
        ≡ walk_check sv48_scheme m access_type addr pc 1 (ppn sv48_scheme entry0) b
  unfolding check_trap_sv48_entry3 walk_check
  sv48_entry3_lem same_index entry0 b = rw (Sv48.slot3_lem entry0 addr) (
      >>=-cong (of_read (m.bus.read 8 (slot sv48_scheme 1 (ppn sv48_scheme entry0) addr)))
        (λ entry s. rw (Sv48.aligned3_lem entry) (
          >>=-cong (return_if_trap (check_trap_for_entry entry access_type pc addr))
            (λ _ s'.
              if-cong (is_leaf_entry entry) _ _ _ _ s' refl (sv48_entry4_lem same_index entry s'))
            s))
        b)

  sv48_entry2_lem :
      (same_index : get_member addr vpn1 ≡ get_member addr vpn0) (entry0 : ℕ) (b : B)
      → check_trap_sv48_entry2 m access_type pc addr entry0 b
        ≡ walk_check sv48_scheme m access_type addr pc 2 (ppn sv48_scheme entry0) b
  unfolding check_trap_sv48_entry2 walk_check
  sv48_entry2_lem same_index entry0 b = rw (Sv48.slot2_lem entry0 addr) (
      >>=-cong (of_read (m.bus.read 8 (slot sv48_scheme 2 (ppn sv48_scheme entry0) addr)))
        (λ entry s. rw (Sv48.aligned2_lem entry) (
          >>=-cong (return_if_trap (check_trap_for_entry entry access_type pc addr))
            (λ _ s'.
              if-cong (is_leaf_entry entry) _ _ _ _ s' refl (sv48_entry3_lem same_index entry s'))
            s))
        b)

  sv48_entry1_lem :
      (same_index : get_member addr vpn1 ≡ get_member addr vpn0) (b : B)
      → check_trap_sv48 m access_type pc addr b
        ≡ walk_check sv48_scheme m access_type addr pc 3
            (m.csr.supervisor_address_translation_protection % 2 ^ 44)
            b
  unfolding check_trap_sv48 walk_check
  sv48_entry1_lem same_index b =
      rw (Sv48.slot1_lem m.csr.supervisor_address_translation_protection addr) (
        >>=-cong
          (of_read (
            m.bus.read 8
              (slot sv48_scheme 3 (m.csr.supervisor_address_translation_protection % 2 ^ 44) addr)))
          (λ entry s. rw (Sv48.aligned1_lem entry) (
            >>=-cong (return_if_trap (check_trap_for_entry entry access_type pc addr))
              (λ _ s'.
                if-cong (is_leaf_entry entry) _ _ _ _ s' refl (sv48_entry2_lem same_index entry s'))
              s))
          b)

  in_lem :
      (mode : AddressTranslationMode)
      → (mode ≡ sv48 → get_member addr vpn1 ≡ get_member addr vpn0)
      → (b : B)
      → check_trap_in mode m access_type pc addr b ≡ check_by_walk mode m access_type addr pc b
  unfolding check_trap_in check_by_walk
  in_lem bare same_index b = refl
  in_lem sv32 same_index b = sv32_entry1_lem b
  in_lem sv39 same_index b = sv39_entry1_lem b
  in_lem sv48 same_index b = sv48_entry1_lem (same_index refl) b
  in_lem sv57 same_index b = refl
  in_lem sv64 same_index b = refl
  in_lem other same_index b = refl

pub check_trap-eq-walk :
    {B : Type 0} (m : MemoryAccessUnit B) (access_type : MemoryAccessType) (pc addr : ℕ) (b : B)
    → (get_address_translation_mode m access_type ≡ sv48
        → get_member addr vpn1 ≡ get_member addr vpn0)
    → check_trap m access_type pc addr b
      ≡ check_by_walk (get_address_translation_mode m access_type) m access_type addr pc b
unfolding check_trap
check_trap-eq-walk m access_type pc addr b same_index =
    in_lem m access_type addr pc (get_address_translation_mode m access_type) same_index b
