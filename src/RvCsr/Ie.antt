-- ===== src/RvCsr/Ie.antt =====
-- include/rafi/common/RvCsr.h, xie_t: mie, sie and uie.
use rafi_1st.Base.{ℕ, [], ◌∷◌, bit_or}
use rafi_1st.BitField.{Member, bit, masks}

abbrev pub meie : Member
meie = bit 11

abbrev pub seie : Member
seie = bit 9

abbrev pub ueie : Member
ueie = bit 8

abbrev pub mtie : Member
mtie = bit 7

abbrev pub stie : Member
stie = bit 5

abbrev pub utie : Member
utie = bit 4

abbrev pub msie : Member
msie = bit 3

abbrev pub ssie : Member
ssie = bit 1

abbrev pub usie : Member
usie = bit 0

abbrev pub write_mask : ℕ
write_mask = masks (meie ∷ seie ∷ ueie ∷ msie ∷ ssie ∷ usie ∷ [])

abbrev pub user_mask : ℕ
user_mask = masks (ueie ∷ utie ∷ usie ∷ [])

abbrev pub supervisor_mask : ℕ
supervisor_mask = bit_or (masks (seie ∷ stie ∷ ssie ∷ [])) user_mask

abbrev pub machine_mask : ℕ
machine_mask = bit_or (masks (meie ∷ mtie ∷ msie ∷ [])) supervisor_mask
