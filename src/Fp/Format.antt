-- ===== src/Fp/Format.antt =====
-- src/lib/fp/FpApi.cpp: the class template FpBase at its two instances, Fp32 and Fp64.
use rafi_1st.Base.{ℕ, ◌-◌, ◌^◌, Bool, not, ◌&&◌, ◌==◌, leb, ltb}
use rafi_1st.BitField.{Member, bits, bit, get_member}

pub data Format : Type 0 where
  fp32 fp64 : Format

abbrev pub exponent_width : Format → ℕ
exponent_width fp32 = 8
exponent_width fp64 = 11

-- Sign, Exponent, Fraction and FractionMsb
abbrev pub sign : Format → Member
sign fp32 = bit 31
sign fp64 = bit 63

abbrev pub exponent : Format → Member
exponent fp32 = bits 30 23
exponent fp64 = bits 62 52

abbrev pub fraction : Format → Member
fraction fp32 = bits 22 0
fraction fp64 = bits 51 0

abbrev pub fraction_msb : Format → Member
fraction_msb fp32 = bit 22
fraction_msb fp64 = bit 51

abbrev pub max_exponent : Format → ℕ
max_exponent f = 2 ^ exponent_width f - 1

abbrev pub get_sign : Format → ℕ → ℕ
get_sign f x = get_member x (sign f)

abbrev pub get_exponent : Format → ℕ → ℕ
get_exponent f x = get_member x (exponent f)

abbrev pub get_fraction : Format → ℕ → ℕ
get_fraction f x = get_member x (fraction f)

abbrev pub is_zero : Format → ℕ → Bool
is_zero f x = get_exponent f x == 0 && get_fraction f x == 0

abbrev pub is_inf : Format → ℕ → Bool
is_inf f x = get_exponent f x == max_exponent f && get_fraction f x == 0

abbrev pub is_normal : Format → ℕ → Bool
is_normal f x = leb 1 (get_exponent f x) && ltb (get_exponent f x) (max_exponent f)

abbrev pub is_sub_normal : Format → ℕ → Bool
is_sub_normal f x = get_exponent f x == 0 && not (get_fraction f x == 0)

abbrev pub is_nan : Format → ℕ → Bool
is_nan f x = get_exponent f x == max_exponent f && not (get_fraction f x == 0)

abbrev pub is_quiet_nan : Format → ℕ → Bool
is_quiet_nan f x = is_nan f x && not (get_member x (fraction_msb f) == 0)

abbrev pub is_signaling_nan : Format → ℕ → Bool
is_signaling_nan f x = is_nan f x && get_member x (fraction_msb f) == 0

abbrev pub canonical_quiet_nan : Format → ℕ
canonical_quiet_nan fp32 = 0x7fc0_0000
canonical_quiet_nan fp64 = 0x7ff8_0000_0000_0000

abbrev pub canonical_signaling_nan : Format → ℕ
canonical_signaling_nan fp32 = 0x7f80_0001
canonical_signaling_nan fp64 = 0x7ff0_0000_0000_0001
