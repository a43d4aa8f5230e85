-- ===== src/PageTable/Sv39.antt =====
-- include/rafi/common/RvPageTable.h: PageTableEntrySv39, PhysicalAddressSv39, VirtualAddressSv39.
use rafi_1st.Base.{ℕ}
use rafi_1st.BitField.{Member, bits, set_member}

-- The members of PageTableEntrySv39 next to the flags
abbrev pub ppn0 : Member
ppn0 = bits 18 10

abbrev pub ppn1 : Member
ppn1 = bits 27 19

abbrev pub ppn2 : Member
ppn2 = bits 53 28

-- The members of VirtualAddressSv39
abbrev pub offset : Member
offset = bits 11 0

abbrev pub vpn0 : Member
vpn0 = bits 20 12

abbrev pub vpn1 : Member
vpn1 = bits 29 21

abbrev pub vpn2 : Member
vpn2 = bits 38 30

-- The members of PhysicalAddressSv39
abbrev pub address_ppn : Member
address_ppn = bits 55 12

abbrev pub address_ppn2 : Member
address_ppn2 = bits 55 30

abbrev pub address_ppn1 : Member
address_ppn1 = bits 29 21

abbrev pub address_ppn0 : Member
address_ppn0 = bits 20 12

abbrev pub address_offset : Member
address_offset = bits 11 0

-- PhysicalAddressSv39(ppn, offset)
unfoldable pub table_address : ℕ → ℕ → ℕ
table_address ppn offset = set_member 64 (set_member 64 0 address_ppn ppn) address_offset offset

-- PhysicalAddressSv39(ppn2, ppn1, ppn0, offset)
unfoldable pub physical_address : ℕ → ℕ → ℕ → ℕ → ℕ
physical_address p2 p1 p0 o =
    set_member 64
      (set_member 64 (set_member 64 (set_member 64 0 address_ppn2 p2) address_ppn1 p1) address_ppn0
        p0)
      address_offset o
