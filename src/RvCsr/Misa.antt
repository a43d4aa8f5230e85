-- ===== src/RvCsr/Misa.antt =====
-- include/rafi/common/RvCsr.h, misa_t: the letters that `Csr::Csr` sets, and the base.
use rafi_1st.BitField.{Member, bits, bit}

abbrev pub a : Member
a = bit 0

abbrev pub c : Member
c = bit 2

abbrev pub d : Member
d = bit 3

abbrev pub f : Member
f = bit 5

abbrev pub i : Member
i = bit 8

abbrev pub m : Member
m = bit 12

abbrev pub s : Member
s = bit 18

abbrev pub u : Member
u = bit 20

abbrev pub mxl_rv32 : Member
mxl_rv32 = bits 31 30

abbrev pub mxl_rv64 : Member
mxl_rv64 = bits 63 62
