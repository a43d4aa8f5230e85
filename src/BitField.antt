-- ===== src/BitField.antt =====
-- include/rafi/common/BitField.h: named bit ranges of a `uint32_t` or a `uint64_t`.
-- `BaseInteger` is the width `w`, 32 or 64; a value is a number below `2 ^ w`.
pub mod Laws
pub mod Masks
pub mod Bit
pub mod Sum
use rafi_1st.Base.{ℕ, ◌+◌, ◌-◌, ◌*◌, ◌/◌, ◌%◌, ◌^◌, bit_and, bit_or, bit_xor, List, [], ◌∷◌}

-- BitFieldMember<BaseInteger, msb, lsb>
pub record Member : Type 0 where
  pub msb : ℕ
  pub lsb : ℕ

-- Member<msb, lsb>
abbrev pub bits : ℕ → ℕ → Member
bits msb lsb = record { msb = msb; lsb = lsb }

-- Member<msb>
abbrev pub bit : ℕ → Member
bit msb = record { msb = msb; lsb = msb }

abbrev pub width : Member → ℕ
width m = m.msb - m.lsb + 1

abbrev pub mask : Member → ℕ
mask m = (2 ^ width m - 1) * 2 ^ m.lsb

-- ~a at width w
abbrev pub complement : ℕ → ℕ → ℕ
complement w a = bit_xor a (2 ^ w - 1)

unfoldable pub get_member : ℕ → Member → ℕ
get_member v m = bit_and v (mask m) / 2 ^ m.lsb

unfoldable pub set_member : ℕ → ℕ → Member → ℕ → ℕ
set_member w v m x =
    bit_or (bit_and v (complement w (mask m))) (bit_and (x * 2 ^ m.lsb % 2 ^ w) (mask m))

unfoldable pub get_with_mask : ℕ → ℕ → ℕ
get_with_mask v k = bit_and v k

unfoldable pub set_with_mask : ℕ → ℕ → ℕ → ℕ → ℕ
set_with_mask w v x k = bit_or (bit_and v (complement w k)) (bit_and x k)

-- The union of the members' masks, `A::Mask | B::Mask | ...`.
abbrev pub masks : List Member → ℕ
masks [] = 0
masks (m ∷ ms) = bit_or (mask m) (masks ms)
