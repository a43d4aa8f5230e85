-- ===== src/Cpu/MemoryAccessUnit/Walk/Translate.antt =====
-- The unrolled walks of `Translate` do what the walk for any number of levels does, and that what
-- the walk on the bits does.
use rafi_1st.Base.{ℕ, ◌%◌, ◌^◌, ◌≡◌, refl, ap, ◌∙◌}
use rafi_1st.RvTypes.{
  AddressTranslationMode, bare, sv32, sv39, sv48, sv57, sv64, other, MemoryAccessType,
}
use rafi_1st.Cpu.Action.{of_read, return_if_trap}
use rafi_1st.Cpu.Action.Laws.{>>=-cong, if-cong}
use rafi_1st.Cpu.MemoryAccessUnit.{
  MemoryAccessUnit, get_address_translation_mode, is_leaf_entry, check_trap_for_entry,
}
use rafi_1st.Cpu.MemoryAccessUnit.Translate.{
  translate_sv32_entry2, translate_sv32, translate_sv39_entry3, translate_sv39_entry2,
  translate_sv39, translate_sv48_entry4, translate_sv48_entry3, translate_sv48_entry2,
  translate_sv48, translate_in, translate,
}
use rafi_1st.Cpu.MemoryAccessUnit.Walk.{
  walk_translate, translate_by_walk, sv32_scheme, sv39_scheme, sv48_scheme, slot, ppn,
}
use rafi_1st.Cpu.MemoryAccessUnit.Walk.Reference.{reference_translate, paging_mode}
use rafi_1st.Cpu.MemoryAccessUnit.Walk.Agreement.{reference_translate_lem, paging_mode_lem}
use rafi_1st.Cpu.MemoryAccessUnit.Walk.Sv32
use rafi_1st.Cpu.MemoryAccessUnit.Walk.Sv39
use rafi_1st.Cpu.MemoryAccessUnit.Walk.Sv48

module _ {B : Type 0} (m : MemoryAccessUnit B) (access_type : MemoryAccessType) (addr pc : ℕ) where
  sv32_entry2_lem :
      (entry0 : ℕ) (b : B)
      → translate_sv32_entry2 m access_type addr pc entry0 b
        ≡ walk_translate sv32_scheme m access_type addr pc 0 (ppn sv32_scheme entry0) b
  unfolding translate_sv32_entry2 walk_translate
  sv32_entry2_lem entry0 b = rw (Sv32.slot2_lem entry0 addr) (
      >>=-cong (of_read (m.bus.read 4 (slot sv32_scheme 0 (ppn sv32_scheme entry0) addr)))
        (λ entry s. rw (Sv32.leaf2_lem entry addr)) b)

  sv32_entry1_lem :
      (b : B)
      → translate_sv32 m access_type addr pc b
        ≡ walk_translate sv32_scheme m access_type addr pc 1
            (m.csr.supervisor_address_translation_protection % 2 ^ 22)
            b
  unfolding translate_sv32 walk_translate
  sv32_entry1_lem b = rw (Sv32.slot1_lem m.csr.supervisor_address_translation_protection addr) (
      >>=-cong
        (of_read (
          m.bus.read 4
            (slot sv32_scheme 1 (m.csr.supervisor_address_translation_protection % 2 ^ 22) addr)))
        (λ entry s. rw (Sv32.leaf1_lem entry addr) (
          >>=-cong (return_if_trap (check_trap_for_entry entry access_type pc addr))
            (λ _ s'. if-cong (is_leaf_entry entry) _ _ _ _ s' refl (sv32_entry2_lem entry s')) s))
        b)

  sv39_entry3_lem :
      (entry0 : ℕ) (b : B)
      → translate_sv39_entry3 m access_type addr pc entry0 b
        ≡ walk_translate sv39_scheme m access_type addr pc 0 (ppn sv39_scheme entry0) b
  unfolding translate_sv39_entry3 walk_translate
  sv39_entry3_lem entry0 b = rw (Sv39.slot3_lem entry0 addr) (
      >>=-cong (of_read (m.bus.read 8 (slot sv39_scheme 0 (ppn sv39_scheme entry0) addr)))
        (λ entry s. rw (Sv39.leaf3_lem entry addr)) b)

  sv39_entry2_lem :
      (entry0 : ℕ) (b : B)
      → translate_sv39_entry2 m access_type addr pc entry0 b
        ≡ walk_translate sv39_scheme m access_type addr pc 1 (ppn sv39_scheme entry0) b
  unfolding translate_sv39_entry2 walk_translate
  sv39_entry2_lem entry0 b = rw (Sv39.slot2_lem entry0 addr) (
      >>=-cong (of_read (m.bus.read 8 (slot sv39_scheme 1 (ppn sv39_scheme entry0) addr)))
        (λ entry s. rw (Sv39.leaf2_lem entry addr) (
          >>=-cong (return_if_trap (check_trap_for_entry entry access_type pc addr))
            (λ _ s'. if-cong (is_leaf_entry entry) _ _ _ _ s' refl (sv39_entry3_lem entry s')) s))
        b)

  sv39_entry1_lem :
      (b : B)
      → translate_sv39 m access_type addr pc b
        ≡ walk_translate sv39_scheme m access_type addr pc 2
            (m.csr.supervisor_address_translation_protection % 2 ^ 44)
            b
  unfolding translate_sv39 walk_translate
  sv39_entry1_lem b = rw (Sv39.slot1_lem m.csr.supervisor_address_translation_protection addr) (
      >>=-cong
        (of_read (
          m.bus.read 8
            (slot sv39_scheme 2 (m.csr.supervisor_address_translation_protection % 2 ^ 44) addr)))
        (λ entry s. rw (Sv39.leaf1_lem entry addr) (
          >>=-cong (return_if_trap (check_trap_for_entry entry access_type pc addr))
            (λ _ s'. if-cong (is_leaf_entry entry) _ _ _ _ s' refl (sv39_entry2_lem entry s')) s))
        b)

  sv48_entry4_lem :
      (entry0 : ℕ) (b : B)
      → translate_sv48_entry4 m access_type addr pc entry0 b
        ≡ walk_translate sv48_scheme m access_type addr pc 0 (ppn sv48_scheme entry0) b
  unfolding translate_sv48_entry4 walk_translate
  sv48_entry4_lem entry0 b = rw (Sv48.slot4_lem entry0 addr) (
      >>=-cong (of_read (m.bus.read 8 (slot sv48_scheme 0 (ppn sv48_scheme entry0) addr)))
        (λ entry s. rw (Sv48.leaf4_lem entry addr)) b)

  sv48_entry3_lem :
      (entry0 : ℕ) (b : B)
      → translate_sv48_entry3 m access_type addr pc entry0 b
        ≡ walk_translate sv48_scheme m access_type addr pc 1 (ppn sv48_scheme entry0) b
  unfolding translate_sv48_entry3 walk_translate
  sv48_entry3_lem entry0 b = rw (Sv48.slot3_lem entry0 addr) (
      >>=-cong (of_read (m.bus.read 8 (slot sv48_scheme 1 (ppn sv48_scheme entry0) addr)))
        (λ entry s. rw (Sv48.leaf3_lem entry addr) (
          >>=-cong (return_if_trap (check_trap_for_entry entry access_type pc addr))
            (λ _ s'. if-cong (is_leaf_entry entry) _ _ _ _ s' refl (sv48_entry4_lem entry s')) s))
        b)

  sv48_entry2_lem :
      (entry0 : ℕ) (b : B)
      → translate_sv48_entry2 m access_type addr pc entry0 b
        ≡ walk_translate sv48_scheme m access_type addr pc 2 (ppn sv48_scheme entry0) b
  unfolding translate_sv48_entry2 walk_translate
  sv48_entry2_lem entry0 b = rw (Sv48.slot2_lem entry0 addr) (
      >>=-cong (of_read (m.bus.read 8 (slot sv48_scheme 2 (ppn sv48_scheme entry0) addr)))
        (λ entry s. rw (Sv48.leaf2_lem entry addr) (
          >>=-cong (return_if_trap (check_trap_for_entry entry access_type pc addr))
            (λ _ s'. if-cong (is_leaf_entry entry) _ _ _ _ s' refl (sv48_entry3_lem entry s')) s))
        b)

  sv48_entry1_lem :
      (b : B)
      → translate_sv48 m access_type addr pc b
        ≡ walk_translate sv48_scheme m access_type addr pc 3
            (m.csr.supervisor_address_translation_protection % 2 ^ 44)
            b
  unfolding translate_sv48 walk_translate
  sv48_entry1_lem b = rw (Sv48.slot1_lem m.csr.supervisor_address_translation_protection addr) (
      >>=-cong
        (of_read (
          m.bus.read 8
            (slot sv48_scheme 3 (m.csr.supervisor_address_translation_protection % 2 ^ 44) addr)))
        (λ entry s. rw (Sv48.leaf1_lem entry addr) (
          >>=-cong (return_if_trap (check_trap_for_entry entry access_type pc addr))
            (λ _ s'. if-cong (is_leaf_entry entry) _ _ _ _ s' refl (sv48_entry2_lem entry s')) s))
        b)

  in_lem :
      (mode : AddressTranslationMode)
      → (b : B)
      → translate_in mode m access_type addr pc b ≡ translate_by_walk mode m access_type addr pc b
  unfolding translate_in translate_by_walk
  in_lem bare b = refl
  in_lem sv32 b = sv32_entry1_lem b
  in_lem sv39 b = sv39_entry1_lem b
  in_lem sv48 b = sv48_entry1_lem b
  in_lem sv57 b = refl
  in_lem sv64 b = refl
  in_lem other b = refl

pub translate-eq-walk :
    {B : Type 0} (m : MemoryAccessUnit B) (access_type : MemoryAccessType) (addr pc : ℕ) (b : B)
    → translate m access_type addr pc b
      ≡ translate_by_walk (get_address_translation_mode m access_type) m access_type addr pc b
unfolding translate
translate-eq-walk m access_type addr pc b =
    in_lem m access_type addr pc (get_address_translation_mode m access_type) b

-- `Translate` does what one walk for any number of levels does, whose tests are on the bits of the
-- entries, of satp and of the status register, in every mode, on every state of the bus: the same
-- reads and writes, the same address, trap or exception. A walk raises a page fault at an entry
-- without V, or with W and without R, and at a leaf that the access, at its level, may not use; it
-- sets A, and on a store D. As in the emulator, it does not fault on a misaligned large page, and
-- it keeps the low 32, 39 or 48 bits of the address.
pub translate-eq-reference :
    {B : Type 0} (m : MemoryAccessUnit B) (access_type : MemoryAccessType) (addr pc : ℕ) (b : B)
    → translate m access_type addr pc b
      ≡ reference_translate (paging_mode m access_type) m access_type addr pc b
translate-eq-reference m access_type addr pc b =
    translate-eq-walk m access_type addr pc b
    ∙ reference_translate_lem m access_type addr pc b (get_address_translation_mode m access_type)
    ∙ ap (λ (mode : AddressTranslationMode). reference_translate mode m access_type addr pc b)
        (paging_mode_lem m access_type)
