-- ===== src/Cpu/MemoryAccessUnit/Walk/Sv48.antt =====
-- The addresses that the walks of Sv48 compute, against those of the reference walk.
use rafi_1st.Base.{ℕ, ◌+◌, ◌*◌, ◌%◌, ◌^◌, ◌<◌, ◌≡◌, ap, ◌∙◌, arith, ◌==◌, ◌&&◌}
use rafi_1st.BitField.{get_member}
use rafi_1st.BitField.Laws.{get_member_lem, get_member-lt}
use rafi_1st.PageTable.Sv48
use rafi_1st.PageTable.Layout.{Sv48-table_address_lem, Sv48-physical_address_lem}
use rafi_1st.RvCsr.Satp
use rafi_1st.Cpu.MemoryAccessUnit.{zero_extend, zero_extend_lem}
use rafi_1st.Cpu.MemoryAccessUnit.Walk.{sv48_scheme, slot, ppn, leaf_address, aligned}

-- The number of a page in the members of an entry
ppn_lem :
    (entry : ℕ)
    → get_member entry Sv48.ppn3 * 2 ^ 39
        + get_member entry Sv48.ppn2 * 2 ^ 30
        + get_member entry Sv48.ppn1 * 2 ^ 21
        + get_member entry Sv48.ppn0 * 2 ^ 12
      ≡ ppn sv48_scheme entry * 2 ^ 12
ppn_lem entry = omega (
  arith,
  get_member_lem entry Sv48.ppn3,
  get_member_lem entry Sv48.ppn2,
  get_member_lem entry Sv48.ppn1,
  get_member_lem entry Sv48.ppn0,
)

-- An address in the table that an entry points to
next_lem :
    (entry offset : ℕ)
    → offset < 2 ^ 12
    → Sv48.physical_address
        (get_member entry Sv48.ppn3)
        (get_member entry Sv48.ppn2)
        (get_member entry Sv48.ppn1)
        (get_member entry Sv48.ppn0)
        offset
      ≡ ppn sv48_scheme entry * 2 ^ 12 + offset
next_lem entry offset h =
    Sv48-physical_address_lem (get_member entry Sv48.ppn3) (get_member entry Sv48.ppn2)
      (get_member entry Sv48.ppn1) (get_member entry Sv48.ppn0) offset
      (get_member-lt entry Sv48.ppn3) (get_member-lt entry Sv48.ppn2)
      (get_member-lt entry Sv48.ppn1) (get_member-lt entry Sv48.ppn0) h
    ∙ omega (arith, ppn_lem entry)

pub slot2_lem :
    (entry addr : ℕ)
    → Sv48.physical_address
        (get_member entry Sv48.ppn3)
        (get_member entry Sv48.ppn2)
        (get_member entry Sv48.ppn1)
        (get_member entry Sv48.ppn0)
        (8 * get_member addr Sv48.vpn2)
      ≡ slot sv48_scheme 2 (ppn sv48_scheme entry) addr
slot2_lem entry addr =
    next_lem entry (8 * get_member addr Sv48.vpn2) (omega (arith, get_member-lt addr Sv48.vpn2))
    ∙ omega (arith, get_member_lem addr Sv48.vpn2)

pub slot3_lem :
    (entry addr : ℕ)
    → Sv48.physical_address
        (get_member entry Sv48.ppn3)
        (get_member entry Sv48.ppn2)
        (get_member entry Sv48.ppn1)
        (get_member entry Sv48.ppn0)
        (8 * get_member addr Sv48.vpn1)
      ≡ slot sv48_scheme 1 (ppn sv48_scheme entry) addr
slot3_lem entry addr =
    next_lem entry (8 * get_member addr Sv48.vpn1) (omega (arith, get_member-lt addr Sv48.vpn1))
    ∙ omega (arith, get_member_lem addr Sv48.vpn1)

pub slot4_lem :
    (entry addr : ℕ)
    → Sv48.physical_address
        (get_member entry Sv48.ppn3)
        (get_member entry Sv48.ppn2)
        (get_member entry Sv48.ppn1)
        (get_member entry Sv48.ppn0)
        (8 * get_member addr Sv48.vpn0)
      ≡ slot sv48_scheme 0 (ppn sv48_scheme entry) addr
slot4_lem entry addr =
    next_lem entry (8 * get_member addr Sv48.vpn0) (omega (arith, get_member-lt addr Sv48.vpn0))
    ∙ omega (arith, get_member_lem addr Sv48.vpn0)

pub slot1_lem :
    (satp addr : ℕ)
    → Sv48.table_address (get_member satp Satp.ppn_rv64) (8 * get_member addr Sv48.vpn3)
      ≡ slot sv48_scheme 3 (satp % 2 ^ 44) addr
slot1_lem satp addr =
    Sv48-table_address_lem (get_member satp Satp.ppn_rv64) (8 * get_member addr Sv48.vpn3)
      (get_member-lt satp Satp.ppn_rv64) (omega (arith, get_member-lt addr Sv48.vpn3))
    ∙ omega (arith, get_member_lem satp Satp.ppn_rv64, get_member_lem addr Sv48.vpn3)

pub leaf4_lem :
    (entry addr : ℕ)
    → zero_extend 48 (
        Sv48.physical_address
          (get_member entry Sv48.ppn3)
          (get_member entry Sv48.ppn2)
          (get_member entry Sv48.ppn1)
          (get_member entry Sv48.ppn0)
          (get_member addr Sv48.offset))
      ≡ leaf_address sv48_scheme 0 entry addr
leaf4_lem entry addr =
    zero_extend_lem 48 (
      Sv48.physical_address (get_member entry Sv48.ppn3) (get_member entry Sv48.ppn2)
        (get_member entry Sv48.ppn1) (get_member entry Sv48.ppn0) (get_member addr Sv48.offset))
    ∙ ap (λ (t : ℕ). t % 2 ^ 48)
        (Sv48-physical_address_lem (get_member entry Sv48.ppn3) (get_member entry Sv48.ppn2)
            (get_member entry Sv48.ppn1) (get_member entry Sv48.ppn0) (get_member addr Sv48.offset)
            (get_member-lt entry Sv48.ppn3) (get_member-lt entry Sv48.ppn2)
            (get_member-lt entry Sv48.ppn1) (get_member-lt entry Sv48.ppn0)
            (get_member-lt addr Sv48.offset)
          ∙ omega (
            arith,
            get_member_lem entry Sv48.ppn3,
            get_member_lem entry Sv48.ppn2,
            get_member_lem entry Sv48.ppn1,
            get_member_lem entry Sv48.ppn0,
            get_member_lem addr Sv48.offset,
          ))

pub leaf3_lem :
    (entry addr : ℕ)
    → zero_extend 48 (
        Sv48.physical_address
          (get_member entry Sv48.ppn3)
          (get_member entry Sv48.ppn2)
          (get_member entry Sv48.ppn1)
          (get_member addr Sv48.vpn0)
          (get_member addr Sv48.offset))
      ≡ leaf_address sv48_scheme 1 entry addr
leaf3_lem entry addr =
    zero_extend_lem 48 (
      Sv48.physical_address (get_member entry Sv48.ppn3) (get_member entry Sv48.ppn2)
        (get_member entry Sv48.ppn1) (get_member addr Sv48.vpn0) (get_member addr Sv48.offset))
    ∙ ap (λ (t : ℕ). t % 2 ^ 48)
        (Sv48-physical_address_lem (get_member entry Sv48.ppn3) (get_member entry Sv48.ppn2)
            (get_member entry Sv48.ppn1) (get_member addr Sv48.vpn0) (get_member addr Sv48.offset)
            (get_member-lt entry Sv48.ppn3) (get_member-lt entry Sv48.ppn2)
            (get_member-lt entry Sv48.ppn1) (get_member-lt addr Sv48.vpn0)
            (get_member-lt addr Sv48.offset)
          ∙ omega (
            arith,
            get_member_lem entry Sv48.ppn3,
            get_member_lem entry Sv48.ppn2,
            get_member_lem entry Sv48.ppn1,
            get_member_lem addr Sv48.vpn0,
            get_member_lem addr Sv48.offset,
          ))

pub leaf2_lem :
    (entry addr : ℕ)
    → zero_extend 48 (
        Sv48.physical_address
          (get_member entry Sv48.ppn3)
          (get_member entry Sv48.ppn2)
          (get_member addr Sv48.vpn1)
          (get_member addr Sv48.vpn0)
          (get_member addr Sv48.offset))
      ≡ leaf_address sv48_scheme 2 entry addr
leaf2_lem entry addr =
    zero_extend_lem 48 (
      Sv48.physical_address (get_member entry Sv48.ppn3) (get_member entry Sv48.ppn2)
        (get_member addr Sv48.vpn1) (get_member addr Sv48.vpn0) (get_member addr Sv48.offset))
    ∙ ap (λ (t : ℕ). t % 2 ^ 48)
        (Sv48-physical_address_lem (get_member entry Sv48.ppn3) (get_member entry Sv48.ppn2)
            (get_member addr Sv48.vpn1) (get_member addr Sv48.vpn0) (get_member addr Sv48.offset)
            (get_member-lt entry Sv48.ppn3) (get_member-lt entry Sv48.ppn2)
            (get_member-lt addr Sv48.vpn1) (get_member-lt addr Sv48.vpn0)
            (get_member-lt addr Sv48.offset)
          ∙ omega (
            arith,
            get_member_lem entry Sv48.ppn3,
            get_member_lem entry Sv48.ppn2,
            get_member_lem addr Sv48.vpn1,
            get_member_lem addr Sv48.vpn0,
            get_member_lem addr Sv48.offset,
          ))

pub leaf1_lem :
    (entry addr : ℕ)
    → zero_extend 48 (
        Sv48.physical_address
          (get_member entry Sv48.ppn3)
          (get_member addr Sv48.vpn2)
          (get_member addr Sv48.vpn1)
          (get_member addr Sv48.vpn0)
          (get_member addr Sv48.offset))
      ≡ leaf_address sv48_scheme 3 entry addr
leaf1_lem entry addr =
    zero_extend_lem 48 (
      Sv48.physical_address (get_member entry Sv48.ppn3) (get_member addr Sv48.vpn2)
        (get_member addr Sv48.vpn1) (get_member addr Sv48.vpn0) (get_member addr Sv48.offset))
    ∙ ap (λ (t : ℕ). t % 2 ^ 48)
        (Sv48-physical_address_lem (get_member entry Sv48.ppn3) (get_member addr Sv48.vpn2)
            (get_member addr Sv48.vpn1) (get_member addr Sv48.vpn0) (get_member addr Sv48.offset)
            (get_member-lt entry Sv48.ppn3) (get_member-lt addr Sv48.vpn2)
            (get_member-lt addr Sv48.vpn1) (get_member-lt addr Sv48.vpn0)
            (get_member-lt addr Sv48.offset)
          ∙ omega (
            arith,
            get_member_lem entry Sv48.ppn3,
            get_member_lem addr Sv48.vpn2,
            get_member_lem addr Sv48.vpn1,
            get_member_lem addr Sv48.vpn0,
            get_member_lem addr Sv48.offset,
          ))

pub aligned1_lem :
    (entry : ℕ)
    → (get_member entry Sv48.ppn2 == 0
        && get_member entry Sv48.ppn1 == 0
        && get_member entry Sv48.ppn0 == 0)
      ≡ aligned sv48_scheme 3 entry
aligned1_lem entry = ground (
  arith,
  get_member_lem entry Sv48.ppn2,
  get_member_lem entry Sv48.ppn1,
  get_member_lem entry Sv48.ppn0,
)

pub aligned2_lem :
    (entry : ℕ)
    → (get_member entry Sv48.ppn1 == 0 && get_member entry Sv48.ppn0 == 0)
      ≡ aligned sv48_scheme 2 entry
aligned2_lem entry = ground (arith, get_member_lem entry Sv48.ppn1, get_member_lem entry Sv48.ppn0)

pub aligned3_lem : (entry : ℕ) → (get_member entry Sv48.ppn0 == 0) ≡ aligned sv48_scheme 1 entry
aligned3_lem entry = ground (arith, get_member_lem entry Sv48.ppn0)
