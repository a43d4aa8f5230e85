-- ===== src/Cpu/MemoryAccessUnit/Walk/Agreement.antt =====
-- The walks of src/bin/rafi-emu/cpu/MemoryAccessUnit.cpp, in their form for any number of levels,
-- do what the walks on the bits of the entries do.
use rafi_1st.Base.{
  ℕ, zero, suc, ◌*◌, ◌/◌, ◌%◌, ◌^◌, ◌<◌, ◌≤◌, ◌≡◌, refl, ap, arith, ◌==◌, if◌then◌else◌, Result,
}
use native.Mathlib.Nat.{mod-lt}
use rafi_1st.BitField.Laws.{get_member_lem}
use rafi_1st.RvTypes.{
  SupportedXlen, rv32, rv64, AddressTranslationMode, bare, sv32, sv39, sv48, sv57, sv64, other,
  MemoryAccessType, translation_mode_of_code,
}
use rafi_1st.RvCsr.Satp
use rafi_1st.Cpu.Action.{Outcome, continue, return, return_if_trap, of_read}
use rafi_1st.Cpu.Action.Laws.{>>=-cong, if-cong}
use rafi_1st.Cpu.MemoryAccessUnit.{
  MemoryAccessUnit, is_store, get_address_translation_mode, satp_mode, zero_extend_lem,
}
use rafi_1st.Cpu.MemoryAccessUnit.Permission.{effective_level_lem}
use rafi_1st.Cpu.MemoryAccessUnit.Walk.{
  Scheme, slot, ppn, leaf_address, walk_translate, walk_check, translate_leaf, mark_entry,
  sv32_scheme, sv39_scheme, sv48_scheme, translate_by_walk, check_by_walk,
}
use rafi_1st.Cpu.MemoryAccessUnit.Walk.Entry.{
  entry_trap, is_page, page_trap, entry_trap_lem, is_page_lem, page_trap_lem, marked_entry_lem,
}
use rafi_1st.Cpu.MemoryAccessUnit.Walk.Reference.{
  satp_names, paging_mode, mark, page_translate, table_translate, table_check, reference_translate,
  reference_check,
}

one_bit_lem : (n : ℕ) → n < 2 → translation_mode_of_code n ≡ (if n == 1 then sv32 else bare)
one_bit_lem n small = ground arith

satp_mode_lem : (x : SupportedXlen) (satp : ℕ) → satp_mode x satp ≡ satp_names x satp
satp_mode_lem rv32 satp =
    rw (get_member_lem satp Satp.mode_rv32)
      (one_bit_lem (satp / 2 ^ 31 % 2) (mod-lt (satp / 2 ^ 31) {m = 2} (omega arith)))
satp_mode_lem rv64 satp = rw (get_member_lem satp Satp.mode_rv64)

pub paging_mode_lem :
    {B : Type 0} (m : MemoryAccessUnit B) (access_type : MemoryAccessType)
    → get_address_translation_mode m access_type ≡ paging_mode m access_type
unfolding get_address_translation_mode paging_mode
paging_mode_lem m access_type = rw (
  effective_level_lem m.csr access_type,
  satp_mode_lem m.xlen m.csr.supervisor_address_translation_protection,
)

module _ {B : Type 0} (s : Scheme) (m : MemoryAccessUnit B) (access_type : MemoryAccessType)
    (addr pc : ℕ) where
  module _ (wide : 1 ≤ s.entry_size) where
    mark_lem :
        (at : ℕ) (b : B)
        → mark_entry s m access_type addr pc at b ≡ mark s m access_type addr pc at b
    mark_lem at b =
        >>=-cong (of_read (m.bus.read s.entry_size at))
          (λ found b'. rw (
            marked_entry_lem (8 * s.entry_size) found (is_store access_type) (omega (arith, wide))))
          b

    translate_leaf_lem :
        (level at entry : ℕ) (b : B)
        → translate_leaf s m access_type addr pc level at entry b
          ≡ page_translate s m access_type addr pc level at entry b
    translate_leaf_lem level at entry b = rw (page_trap_lem m.csr entry access_type pc addr) (
        >>=-cong (return_if_trap (page_trap m.csr entry access_type pc addr))
          (λ _ b'.
            ap
              (λ (r : Result (Outcome (Unit {0}) × B)).
                continue r (λ _. return (leaf_address s level entry addr)))
              (mark_lem at b'))
          b)

    table_translate_lem :
        (level base : ℕ) (b : B)
        → walk_translate s m access_type addr pc level base b
          ≡ table_translate s m access_type addr pc level base b
    unfolding walk_translate table_translate
    table_translate_lem zero base b =
        >>=-cong (of_read (m.bus.read s.entry_size (slot s 0 base addr)))
          (λ entry b'. rw (entry_trap_lem entry access_type pc addr) (
            >>=-cong (return_if_trap (entry_trap entry access_type pc addr))
              (λ _ b''. translate_leaf_lem 0 (slot s 0 base addr) entry b'') b'))
          b
    table_translate_lem (suc level) base b =
        >>=-cong (of_read (m.bus.read s.entry_size (slot s (suc level) base addr)))
          (λ entry b'.
            rw (entry_trap_lem entry access_type pc addr, is_page_lem entry)
              (>>=-cong (return_if_trap (entry_trap entry access_type pc addr))
                (λ _ b''.
                  if-cong (is_page entry) _ _ _ _ b''
                    (translate_leaf_lem (suc level) (slot s (suc level) base addr) entry b'')
                    (table_translate_lem level (ppn s entry) b''))
                b'))
          b

  table_check_lem :
      (level base : ℕ) (b : B)
      → walk_check s m access_type addr pc level base b
        ≡ table_check s m access_type addr pc level base b
  unfolding walk_check table_check
  table_check_lem zero base b =
      >>=-cong (of_read (m.bus.read s.entry_size (slot s 0 base addr)))
        (λ entry b'.
          rw (
            entry_trap_lem entry access_type pc addr,
            page_trap_lem m.csr entry access_type pc addr,
          ))
        b
  table_check_lem (suc level) base b =
      >>=-cong (of_read (m.bus.read s.entry_size (slot s (suc level) base addr)))
        (λ entry b'.
          rw
            (
              entry_trap_lem entry access_type pc addr,
              is_page_lem entry,
              page_trap_lem m.csr entry access_type pc addr,
            )
            (>>=-cong (return_if_trap (entry_trap entry access_type pc addr))
              (λ _ b''.
                if-cong (is_page entry) _ _ _ _ b'' refl (table_check_lem level (ppn s entry) b''))
              b'))
        b

module _ {B : Type 0} (m : MemoryAccessUnit B) (access_type : MemoryAccessType) (addr pc : ℕ)
    (b : B) where
  pub reference_translate_lem :
      (mode : AddressTranslationMode)
      → translate_by_walk mode m access_type addr pc b
        ≡ reference_translate mode m access_type addr pc b
  unfolding translate_by_walk reference_translate
  reference_translate_lem bare = rw (zero_extend_lem 32 addr)
  reference_translate_lem sv32 =
      table_translate_lem sv32_scheme m access_type addr pc (omega arith) 1
        (m.csr.supervisor_address_translation_protection % 2 ^ 22) b
  reference_translate_lem sv39 =
      table_translate_lem sv39_scheme m access_type addr pc (omega arith) 2
        (m.csr.supervisor_address_translation_protection % 2 ^ 44) b
  reference_translate_lem sv48 =
      table_translate_lem sv48_scheme m access_type addr pc (omega arith) 3
        (m.csr.supervisor_address_translation_protection % 2 ^ 44) b
  reference_translate_lem sv57 = refl
  reference_translate_lem sv64 = refl
  reference_translate_lem other = refl

  pub reference_check_lem :
      (mode : AddressTranslationMode)
      → check_by_walk mode m access_type addr pc b ≡ reference_check mode m access_type addr pc b
  unfolding check_by_walk reference_check
  reference_check_lem bare = refl
  reference_check_lem sv32 =
      table_check_lem sv32_scheme m access_type addr pc 1
        (m.csr.supervisor_address_translation_protection % 2 ^ 22) b
  reference_check_lem sv39 =
      table_check_lem sv39_scheme m access_type addr pc 2
        (m.csr.supervisor_address_translation_protection % 2 ^ 44) b
  reference_check_lem sv48 =
      table_check_lem sv48_scheme m access_type addr pc 3
        (m.csr.supervisor_address_translation_protection % 2 ^ 44) b
  reference_check_lem sv57 = refl
  reference_check_lem sv64 = refl
  reference_check_lem other = refl
