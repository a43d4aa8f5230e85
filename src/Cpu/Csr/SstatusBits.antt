-- ===== src/Cpu/Csr/SstatusBits.antt =====
-- What a supervisor reads from sstatus (src/bin/rafi-emu/cpu/Csr.cpp), bit by bit.
use rafi_1st.Base.{
  ℕ, zero, suc, ◌+◌, ◌/◌, ◌%◌, ◌^◌, ◌≤◌, ◌<◌, ◌≡◌, ◌∙◌, refl, sym, ap, Bool, true, false, not, ◌&&◌,
  ◌||◌, ◌==◌, leb, arith, if◌then◌else◌,
}
use rafi_1st.Base.Bits.{test_bit, test_bit_high, test_bit-div, test_bit_zero_lem}
use native.Mathlib.Decide.{dec_lt}
use rafi_1st.BitField.{set_member}
use rafi_1st.BitField.Laws.{test_bit-get_with_mask, get_member_lem}
use rafi_1st.BitField.Bit.{test_bit-set_one_wide}
use rafi_1st.RvTypes.{SupportedXlen, rv32, rv64}
use rafi_1st.RvCsr.Addr
use rafi_1st.RvCsr.Status
use rafi_1st.Cpu.Csr.{Csr, sd, read_status}
use rafi_1st.Cpu.Csr.Read.{read_uint64, read_supervisor_mode_register, supervisor_status_mask}

-- The bits that sstatus shows: UIE, SIE, UPIE, SPIE, SPP, FS, XS, SUM, MXR and SD, and on RV64 UXL
-- and SXL.
abbrev low_shown : ℕ → Bool
low_shown i =
    i == 0 || i == 1 || i == 4 || i == 5 || i == 8 || (leb 13 i && leb i 16) || i == 18 || i == 19

abbrev pub is_shown : SupportedXlen → ℕ → Bool
is_shown rv32 i = low_shown i || i == 31
is_shown rv64 i = low_shown i || (leb 32 i && leb i 35) || i == 63

-- The place of SD
abbrev pub sd_place : SupportedXlen → ℕ
sd_place rv32 = 31
sd_place rv64 = 63

-- A unit is dirty whose two bits are both set: those of FS are 13 and 14, and those of XS 15 and
-- 16.
abbrev pub is_dirty : ℕ → Bool
is_dirty status = status / 2 ^ 13 % 4 == 3 || status / 2 ^ 15 % 4 == 3

agree : Bool → Bool → Bool
agree a b = if a then b else not b

all_agree : ℕ → (ℕ → Bool) → (ℕ → Bool) → Bool
all_agree zero f g = true
all_agree (suc n) f g = agree (f n) (g n) && all_agree n f g

all_agree_sound : (n : ℕ) (f g : ℕ → Bool) (i : ℕ) → all_agree n f g ≡ true → i < n → f i ≡ g i
unfolding all_agree agree
all_agree_sound zero f g i h lt = absurd (omega arith)
all_agree_sound (suc n) f g i h lt = ground (arith, all_agree_sound n f g i)

abbrev digit : ℕ → ℕ → Bool
digit a i = a / 2 ^ i % 2 == 1

digit_lem : (a i : ℕ) → test_bit a i ≡ digit a i
digit_lem a i =
    ap (test_bit a) {x = i} {y = i + 0} (omega arith)
    ∙ sym (test_bit-div i a 0)
    ∙ test_bit_zero_lem (a / 2 ^ i)

mask_table :
    (x : SupportedXlen) → all_agree 64 (digit (supervisor_status_mask x)) (is_shown x) ≡ true
unfolding all_agree agree
mask_table rv32 = refl
mask_table rv64 = refl

mask_high : (x : SupportedXlen) (i : ℕ) → 64 ≤ i → test_bit (supervisor_status_mask x) i ≡ false
mask_high rv32 i high = test_bit_high 64 (supervisor_status_mask rv32) i (omega arith) high
mask_high rv64 i high = test_bit_high 64 (supervisor_status_mask rv64) i (omega arith) high

shown_high : (x : SupportedXlen) (i : ℕ) → 64 ≤ i → is_shown x i ≡ false
shown_high rv32 i high = ground arith
shown_high rv64 i high = ground arith

test_bit-mask : (x : SupportedXlen) (i : ℕ) → test_bit (supervisor_status_mask x) i ≡ is_shown x i
test_bit-mask x i = elim (dec_lt i 64) [
  | yes low ↦
      digit_lem (supervisor_status_mask x) i
      ∙ all_agree_sound 64 (digit (supervisor_status_mask x)) (is_shown x) i (mask_table x) low
  | no high ↦ mask_high x i (omega arith) ∙ ground (arith, shown_high x i)
]

sd_bit :
    (x : SupportedXlen) (status i : ℕ)
    → status < 2 ^ 64
    → test_bit (set_member 64 status (sd x) 1) i ≡ (test_bit status i || i == sd_place x)
sd_bit rv32 status i small =
    ground (arith, test_bit-set_one_wide 64 status 31 i (omega arith), test_bit_high 64 status i)
sd_bit rv64 status i small =
    ground (arith, test_bit-set_one_wide 64 status 63 i (omega arith), test_bit_high 64 status i)

test_bit-read_status :
    (c : Csr) (i : ℕ)
    → c.status < 2 ^ 64
    → test_bit (read_status c) i
      ≡ (test_bit c.status i || (is_dirty c.status && i == sd_place c.xlen))
unfolding read_status
test_bit-read_status c i small =
    rw (get_member_lem c.status Status.xs, get_member_lem c.status Status.fs)
      (ground (arith, sd_bit c.xlen c.status i small))

-- A read of `sstatus` shows, of a status register of 64 bits, exactly the bits UIE, SIE, UPIE,
-- SPIE, SPP, FS, XS, SUM and MXR, and on RV64 UXL and SXL, each as the register holds it, and SD,
-- which is also set when FS or XS is dirty; every other bit reads as 0.
pub test_bit-read-sstatus :
    (c : Csr) (i : ℕ)
    → c.status < 2 ^ 64
    → test_bit (read_uint64 c Addr.sstatus) i
      ≡ (is_shown c.xlen i && (test_bit c.status i || (is_dirty c.status && i == sd_place c.xlen)))
unfolding read_uint64 read_supervisor_mode_register
test_bit-read-sstatus c i small =
    test_bit-get_with_mask (read_status c) (supervisor_status_mask c.xlen) i
    ∙ rw (test_bit-read_status c i small, test_bit-mask c.xlen i) (ground arith)
