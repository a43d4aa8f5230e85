-- ===== src/PageTable/Entry.antt =====
-- include/rafi/common/RvPageTable.h: the flags, which the three kinds of entry share.
use rafi_1st.BitField.{Member, bits, bit}

abbrev pub v : Member
v = bit 0

abbrev pub r : Member
r = bit 1

abbrev pub w : Member
w = bit 2

abbrev pub x : Member
x = bit 3

abbrev pub u : Member
u = bit 4

abbrev pub g : Member
g = bit 5

abbrev pub a : Member
a = bit 6

abbrev pub d : Member
d = bit 7

abbrev pub rsw : Member
rsw = bits 9 8
