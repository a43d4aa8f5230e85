-- ===== src/Cpu/MemoryAccessUnit/Walk/Sv39.antt =====
-- The addresses that the walks of Sv39 compute, against those of the reference walk.
use rafi_1st.Base.{ℕ, ◌+◌, ◌*◌, ◌%◌, ◌^◌, ◌<◌, ◌≡◌, ap, ◌∙◌, arith, ◌==◌, ◌&&◌}
use rafi_1st.BitField.{get_member}
use rafi_1st.BitField.Laws.{get_member_lem, get_member-lt}
use rafi_1st.PageTable.Sv39
use rafi_1st.PageTable.Layout.{Sv39-table_address_lem, Sv39-physical_address_lem}
use rafi_1st.RvCsr.Satp
use rafi_1st.Cpu.MemoryAccessUnit.{zero_extend, zero_extend_lem}
use rafi_1st.Cpu.MemoryAccessUnit.Walk.{sv39_scheme, slot, ppn, leaf_address, aligned}

-- The number of a page in the members of an entry
ppn_lem :
    (entry : ℕ)
    → get_member entry Sv39.ppn2 * 2 ^ 30
        + get_member entry Sv39.ppn1 * 2 ^ 21
        + get_member entry Sv39.ppn0 * 2 ^ 12
      ≡ ppn sv39_scheme entry * 2 ^ 12
ppn_lem entry = omega (
  arith,
  get_member_lem entry Sv39.ppn2,
  get_member_lem entry Sv39.ppn1,
  get_member_lem entry Sv39.ppn0,
)

-- An address in the table that an entry points to
next_lem :
    (entry offset : ℕ)
    → offset < 2 ^ 12
    → Sv39.physical_address
        (get_member entry Sv39.ppn2)
        (get_member entry Sv39.ppn1)
        (get_member entry Sv39.ppn0)
        offset
      ≡ ppn sv39_scheme entry * 2 ^ 12 + offset
next_lem entry offset h =
    Sv39-physical_address_lem (get_member entry Sv39.ppn2) (get_member entry Sv39.ppn1)
      (get_member entry Sv39.ppn0) offset (get_member-lt entry Sv39.ppn2)
      (get_member-lt entry Sv39.ppn1) (get_member-lt entry Sv39.ppn0) h
    ∙ omega (arith, ppn_lem entry)

pub slot2_lem :
    (entry addr : ℕ)
    → Sv39.physical_address
        (get_member entry Sv39.ppn2)
        (get_member entry Sv39.ppn1)
        (get_member entry Sv39.ppn0)
        (8 * get_member addr Sv39.vpn1)
      ≡ slot sv39_scheme 1 (ppn sv39_scheme entry) addr
slot2_lem entry addr =
    next_lem entry (8 * get_member addr Sv39.vpn1) (omega (arith, get_member-lt addr Sv39.vpn1))
    ∙ omega (arith, get_member_lem addr Sv39.vpn1)

pub slot3_lem :
    (entry addr : ℕ)
    → Sv39.physical_address
        (get_member entry Sv39.ppn2)
        (get_member entry Sv39.ppn1)
        (get_member entry Sv39.ppn0)
        (8 * get_member addr Sv39.vpn0)
      ≡ slot sv39_scheme 0 (ppn sv39_scheme entry) addr
slot3_lem entry addr =
    next_lem entry (8 * get_member addr Sv39.vpn0) (omega (arith, get_member-lt addr Sv39.vpn0))
    ∙ omega (arith, get_member_lem addr Sv39.vpn0)

pub slot1_lem :
    (satp addr : ℕ)
    → Sv39.table_address (get_member satp Satp.ppn_rv64) (8 * get_member addr Sv39.vpn2)
      ≡ slot sv39_scheme 2 (satp % 2 ^ 44) addr
slot1_lem satp addr =
    Sv39-table_address_lem (get_member satp Satp.ppn_rv64) (8 * get_member addr Sv39.vpn2)
      (get_member-lt satp Satp.ppn_rv64) (omega (arith, get_member-lt addr Sv39.vpn2))
    ∙ omega (arith, get_member_lem satp Satp.ppn_rv64, get_member_lem addr Sv39.vpn2)

pub leaf3_lem :
    (entry addr : ℕ)
    → zero_extend 39 (
        Sv39.physical_address
          (get_member entry Sv39.ppn2)
          (get_member entry Sv39.ppn1)
          (get_member entry Sv39.ppn0)
          (get_member addr Sv39.offset))
      ≡ leaf_address sv39_scheme 0 entry addr
leaf3_lem entry addr =
    zero_extend_lem 39 (
      Sv39.physical_address (get_member entry Sv39.ppn2) (get_member entry Sv39.ppn1)
        (get_member entry Sv39.ppn0) (get_member addr Sv39.offset))
    ∙ ap (λ (t : ℕ). t % 2 ^ 39)
        (Sv39-physical_address_lem (get_member entry Sv39.ppn2) (get_member entry Sv39.ppn1)
            (get_member entry Sv39.ppn0) (get_member addr Sv39.offset)
            (get_member-lt entry Sv39.ppn2) (get_member-lt entry Sv39.ppn1)
            (get_member-lt entry Sv39.ppn0) (get_member-lt addr Sv39.offset)
          ∙ omega (
            arith,
            get_member_lem entry Sv39.ppn2,
            get_member_lem entry Sv39.ppn1,
            get_member_lem entry Sv39.ppn0,
            get_member_lem addr Sv39.offset,
          ))

pub leaf2_lem :
    (entry addr : ℕ)
    → zero_extend 39 (
        Sv39.physical_address
          (get_member entry Sv39.ppn2)
          (get_member entry Sv39.ppn1)
          (get_member addr Sv39.vpn0)
          (get_member addr Sv39.offset))
      ≡ leaf_address sv39_scheme 1 entry addr
leaf2_lem entry addr =
    zero_extend_lem 39 (
      Sv39.physical_address (get_member entry Sv39.ppn2) (get_member entry Sv39.ppn1)
        (get_member addr Sv39.vpn0) (get_member addr Sv39.offset))
    ∙ ap (λ (t : ℕ). t % 2 ^ 39)
        (Sv39-physical_address_lem (get_member entry Sv39.ppn2) (get_member entry Sv39.ppn1)
            (get_member addr Sv39.vpn0) (get_member addr Sv39.offset)
            (get_member-lt entry Sv39.ppn2) (get_member-lt entry Sv39.ppn1)
            (get_member-lt addr Sv39.vpn0) (get_member-lt addr Sv39.offset)
          ∙ omega (
            arith,
            get_member_lem entry Sv39.ppn2,
            get_member_lem entry Sv39.ppn1,
            get_member_lem addr Sv39.vpn0,
            get_member_lem addr Sv39.offset,
          ))

pub leaf1_lem :
    (entry addr : ℕ)
    → zero_extend 39 (
        Sv39.physical_address
          (get_member entry Sv39.ppn2)
          (get_member addr Sv39.vpn1)
          (get_member addr Sv39.vpn0)
          (get_member addr Sv39.offset))
      ≡ leaf_address sv39_scheme 2 entry addr
leaf1_lem entry addr =
    zero_extend_lem 39 (
      Sv39.physical_address (get_member entry Sv39.ppn2) (get_member addr Sv39.vpn1)
        (get_member addr Sv39.vpn0) (get_member addr Sv39.offset))
    ∙ ap (λ (t : ℕ). t % 2 ^ 39)
        (Sv39-physical_address_lem (get_member entry Sv39.ppn2) (get_member addr Sv39.vpn1)
            (get_member addr Sv39.vpn0) (get_member addr Sv39.offset)
            (get_member-lt entry Sv39.ppn2) (get_member-lt addr Sv39.vpn1)
            (get_member-lt addr Sv39.vpn0) (get_member-lt addr Sv39.offset)
          ∙ omega (
            arith,
            get_member_lem entry Sv39.ppn2,
            get_member_lem addr Sv39.vpn1,
            get_member_lem addr Sv39.vpn0,
            get_member_lem addr Sv39.offset,
          ))

pub aligned1_lem :
    (entry : ℕ)
    → (get_member entry Sv39.ppn1 == 0 && get_member entry Sv39.ppn0 == 0)
      ≡ aligned sv39_scheme 2 entry
aligned1_lem entry = ground (arith, get_member_lem entry Sv39.ppn1, get_member_lem entry Sv39.ppn0)

pub aligned2_lem : (entry : ℕ) → (get_member entry Sv39.ppn0 == 0) ≡ aligned sv39_scheme 1 entry
aligned2_lem entry = ground (arith, get_member_lem entry Sv39.ppn0)
