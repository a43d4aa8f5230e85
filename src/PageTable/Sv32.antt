-- ===== src/PageTable/Sv32.antt =====
-- include/rafi/common/RvPageTable.h: PageTableEntrySv32, PhysicalAddressSv32, VirtualAddressSv32.
use rafi_1st.Base.{ℕ}
use rafi_1st.BitField.{Member, bits, set_member}

-- The members of PageTableEntrySv32 next to the flags
abbrev pub ppn0 : Member
ppn0 = bits 19 10

abbrev pub ppn1 : Member
ppn1 = bits 31 20

-- The members of VirtualAddressSv32
abbrev pub offset : Member
offset = bits 11 0

abbrev pub vpn0 : Member
vpn0 = bits 21 12

abbrev pub vpn1 : Member
vpn1 = bits 31 22

-- The members of PhysicalAddressSv32
abbrev pub address_ppn : Member
address_ppn = bits 33 12

abbrev pub address_ppn1 : Member
address_ppn1 = bits 33 22

abbrev pub address_ppn0 : Member
address_ppn0 = bits 21 12

abbrev pub address_offset : Member
address_offset = bits 11 0

-- PhysicalAddressSv32(ppn, offset)
unfoldable pub table_address : ℕ → ℕ → ℕ
table_address ppn offset = set_member 64 (set_member 64 0 address_ppn ppn) address_offset offset

-- PhysicalAddressSv32(ppn1, ppn0, offset)
unfoldable pub physical_address : ℕ → ℕ → ℕ → ℕ
physical_address p1 p0 o =
    set_member 64 (set_member 64 (set_member 64 0 address_ppn1 p1) address_ppn0 p0) address_offset o
