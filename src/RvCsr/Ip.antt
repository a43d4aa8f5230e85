-- ===== src/RvCsr/Ip.antt =====
-- include/rafi/common/RvCsr.h, xip_t: mip, sip and uip.
use rafi_1st.Base.{ℕ, [], ◌∷◌, bit_or}
use rafi_1st.BitField.{Member, bit, masks}

abbrev pub meip : Member
meip = bit 11

abbrev pub seip : Member
seip = bit 9

abbrev pub ueip : Member
ueip = bit 8

abbrev pub mtip : Member
mtip = bit 7

abbrev pub stip : Member
stip = bit 5

abbrev pub utip : Member
utip = bit 4

abbrev pub msip : Member
msip = bit 3

abbrev pub ssip : Member
ssip = bit 1

abbrev pub usip : Member
usip = bit 0

abbrev pub write_mask : ℕ
write_mask = masks (meip ∷ seip ∷ ueip ∷ msip ∷ ssip ∷ usip ∷ [])

abbrev pub user_mask : ℕ
user_mask = masks (ueip ∷ utip ∷ usip ∷ [])

abbrev pub supervisor_mask : ℕ
supervisor_mask = bit_or (masks (seip ∷ stip ∷ ssip ∷ [])) user_mask

abbrev pub machine_mask : ℕ
machine_mask = bit_or (masks (meip ∷ mtip ∷ msip ∷ [])) supervisor_mask
