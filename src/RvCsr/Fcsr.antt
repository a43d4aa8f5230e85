-- ===== src/RvCsr/Fcsr.antt =====
-- include/rafi/common/RvCsr.h, fcsr_t, a `BitField32`.
use rafi_1st.Base.{ℕ, [], ◌∷◌}
use rafi_1st.BitField.{Member, bits, bit, masks}

abbrev pub rm : Member
rm = bits 7 5

abbrev pub ae : Member
ae = bits 4 0

abbrev pub nv : Member
nv = bit 4

abbrev pub dz : Member
dz = bit 3

abbrev pub of : Member
of = bit 2

abbrev pub uf : Member
uf = bit 1

abbrev pub nx : Member
nx = bit 0

abbrev pub user_mask : ℕ
user_mask = masks (rm ∷ ae ∷ [])
