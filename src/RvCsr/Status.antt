-- ===== src/RvCsr/Status.antt =====
-- include/rafi/common/RvCsr.h, xstatus_t: mstatus, sstatus and ustatus.
use rafi_1st.Base.{ℕ, [], ◌∷◌}
use rafi_1st.BitField.{Member, bits, bit, masks}

abbrev pub sd_rv64 : Member
sd_rv64 = bit 63

abbrev pub sxl : Member
sxl = bits 35 34

abbrev pub uxl : Member
uxl = bits 33 32

abbrev pub sd_rv32 : Member
sd_rv32 = bit 31

abbrev pub tsr : Member
tsr = bit 22

abbrev pub tw : Member
tw = bit 21

abbrev pub tvm : Member
tvm = bit 20

abbrev pub mxr : Member
mxr = bit 19

abbrev pub sum : Member
sum = bit 18

abbrev pub mprv : Member
mprv = bit 17

abbrev pub xs : Member
xs = bits 16 15

abbrev pub fs : Member
fs = bits 14 13

abbrev pub mpp : Member
mpp = bits 12 11

abbrev pub spp : Member
spp = bits 8 8

abbrev pub mpie : Member
mpie = bit 7

abbrev pub spie : Member
spie = bit 5

abbrev pub upie : Member
upie = bit 4

abbrev pub mie : Member
mie = bit 3

abbrev pub sie : Member
sie = bit 1

abbrev pub uie : Member
uie = bit 0

abbrev pub write_mask : ℕ
write_mask = masks (
    tsr ∷ tw ∷ tvm ∷ mxr ∷ sum ∷ mprv ∷ xs ∷ fs ∷ mpp ∷ spp ∷ mpie ∷ spie ∷ upie ∷ mie ∷ sie ∷ uie
    ∷ [])

abbrev pub supervisor_mask_rv64 : ℕ
supervisor_mask_rv64 =
    masks (sd_rv64 ∷ sxl ∷ uxl ∷ mxr ∷ sum ∷ xs ∷ fs ∷ spp ∷ spie ∷ upie ∷ sie ∷ uie ∷ [])

abbrev pub supervisor_mask_rv32 : ℕ
supervisor_mask_rv32 = masks (sd_rv32 ∷ mxr ∷ sum ∷ xs ∷ fs ∷ spp ∷ spie ∷ upie ∷ sie ∷ uie ∷ [])

abbrev pub user_mask : ℕ
user_mask = masks (upie ∷ uie ∷ [])
