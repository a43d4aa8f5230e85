-- ===== src/Cpu/MemoryAccessUnit/Walk/Sv32.antt =====
-- The addresses that the walks of Sv32 compute, against those of the reference walk.
use rafi_1st.Base.{ℕ, ◌+◌, ◌*◌, ◌%◌, ◌^◌, ◌<◌, ◌≡◌, ap, ◌∙◌, arith, ◌==◌}
use rafi_1st.BitField.{get_member}
use rafi_1st.BitField.Laws.{get_member_lem, get_member-lt}
use rafi_1st.PageTable.Sv32
use rafi_1st.PageTable.Layout.{Sv32-table_address_lem, Sv32-physical_address_lem}
use rafi_1st.RvCsr.Satp
use rafi_1st.Cpu.MemoryAccessUnit.{zero_extend, zero_extend_lem}
use rafi_1st.Cpu.MemoryAccessUnit.Walk.{sv32_scheme, slot, ppn, leaf_address, aligned}

-- The number of a page in the members of an entry
ppn_lem :
    (entry : ℕ)
    → get_member entry Sv32.ppn1 * 2 ^ 22 + get_member entry Sv32.ppn0 * 2 ^ 12
      ≡ ppn sv32_scheme entry * 2 ^ 12
ppn_lem entry = omega (arith, get_member_lem entry Sv32.ppn1, get_member_lem entry Sv32.ppn0)

-- An address in the table that an entry points to
next_lem :
    (entry offset : ℕ)
    → offset < 2 ^ 12
    → Sv32.physical_address (get_member entry Sv32.ppn1) (get_member entry Sv32.ppn0) offset
      ≡ ppn sv32_scheme entry * 2 ^ 12 + offset
next_lem entry offset h =
    Sv32-physical_address_lem (get_member entry Sv32.ppn1) (get_member entry Sv32.ppn0) offset
      (get_member-lt entry Sv32.ppn1) (get_member-lt entry Sv32.ppn0) h
    ∙ omega (arith, ppn_lem entry)

pub slot2_lem :
    (entry addr : ℕ)
    → Sv32.physical_address
        (get_member entry Sv32.ppn1)
        (get_member entry Sv32.ppn0)
        (4 * get_member (addr % 2 ^ 32) Sv32.vpn0)
      ≡ slot sv32_scheme 0 (ppn sv32_scheme entry) addr
slot2_lem entry addr =
    next_lem entry (4 * get_member (addr % 2 ^ 32) Sv32.vpn0)
      (omega (arith, get_member-lt (addr % 2 ^ 32) Sv32.vpn0))
    ∙ omega (arith, get_member_lem (addr % 2 ^ 32) Sv32.vpn0)

pub slot1_lem :
    (satp addr : ℕ)
    → Sv32.table_address (get_member satp Satp.ppn_rv32) (4 * get_member (addr % 2 ^ 32) Sv32.vpn1)
      ≡ slot sv32_scheme 1 (satp % 2 ^ 22) addr
slot1_lem satp addr =
    Sv32-table_address_lem (get_member satp Satp.ppn_rv32)
      (4 * get_member (addr % 2 ^ 32) Sv32.vpn1) (get_member-lt satp Satp.ppn_rv32)
      (omega (arith, get_member-lt (addr % 2 ^ 32) Sv32.vpn1))
    ∙ omega (arith, get_member_lem satp Satp.ppn_rv32, get_member_lem (addr % 2 ^ 32) Sv32.vpn1)

pub leaf2_lem :
    (entry addr : ℕ)
    → zero_extend 32 (
        Sv32.physical_address
          (get_member entry Sv32.ppn1)
          (get_member entry Sv32.ppn0)
          (get_member (addr % 2 ^ 32) Sv32.offset))
      ≡ leaf_address sv32_scheme 0 entry addr
leaf2_lem entry addr =
    zero_extend_lem 32 (
      Sv32.physical_address (get_member entry Sv32.ppn1) (get_member entry Sv32.ppn0)
        (get_member (addr % 2 ^ 32) Sv32.offset))
    ∙ ap (λ (t : ℕ). t % 2 ^ 32)
        (Sv32-physical_address_lem (get_member entry Sv32.ppn1) (get_member entry Sv32.ppn0)
            (get_member (addr % 2 ^ 32) Sv32.offset) (get_member-lt entry Sv32.ppn1)
            (get_member-lt entry Sv32.ppn0) (get_member-lt (addr % 2 ^ 32) Sv32.offset)
          ∙ omega (
            arith,
            get_member_lem entry Sv32.ppn1,
            get_member_lem entry Sv32.ppn0,
            get_member_lem (addr % 2 ^ 32) Sv32.offset,
          ))

pub leaf1_lem :
    (entry addr : ℕ)
    → zero_extend 32 (
        Sv32.physical_address
          (get_member entry Sv32.ppn1)
          (get_member (addr % 2 ^ 32) Sv32.vpn0)
          (get_member (addr % 2 ^ 32) Sv32.offset))
      ≡ leaf_address sv32_scheme 1 entry addr
leaf1_lem entry addr =
    zero_extend_lem 32 (
      Sv32.physical_address (get_member entry Sv32.ppn1) (get_member (addr % 2 ^ 32) Sv32.vpn0)
        (get_member (addr % 2 ^ 32) Sv32.offset))
    ∙ ap (λ (t : ℕ). t % 2 ^ 32)
        (Sv32-physical_address_lem (get_member entry Sv32.ppn1)
            (get_member (addr % 2 ^ 32) Sv32.vpn0) (get_member (addr % 2 ^ 32) Sv32.offset)
            (get_member-lt entry Sv32.ppn1) (get_member-lt (addr % 2 ^ 32) Sv32.vpn0)
            (get_member-lt (addr % 2 ^ 32) Sv32.offset)
          ∙ omega (
            arith,
            get_member_lem entry Sv32.ppn1,
            get_member_lem (addr % 2 ^ 32) Sv32.vpn0,
            get_member_lem (addr % 2 ^ 32) Sv32.offset,
          ))

pub aligned1_lem : (entry : ℕ) → (get_member entry Sv32.ppn0 == 0) ≡ aligned sv32_scheme 1 entry
aligned1_lem entry = ground (arith, get_member_lem entry Sv32.ppn0)
