-- ===== src/BitField/Laws.antt =====
-- What `GetMember` and `SetMember` do, as arithmetic and bit by bit.
use rafi_1st.Base.{
  ℕ, ◌+◌, ◌-◌, ◌*◌, ◌/◌, ◌%◌, ◌^◌, ◌≤◌, ◌<◌, ◌≡◌, ap, ◌∙◌, ◌⊎◌, Bool, not, ◌&&◌, arith, ltb, leb,
  if◌then◌else◌, bit_and,
}
use rafi_1st.Base.Bits.{
  test_bit, test_bit-bit_and, test_bit-bit_or, test_bit-bit_xor, test_bit-mod, test_bit-div,
  test_bit-mul, test_bit-ones, eq_of_bits, test_bit_high, lt_of_bits,
}
use rafi_1st.BitField.{
  Member, width, mask, complement, get_member, set_member, get_with_mask, set_with_mask,
}

add-sub_left : (a b : ℕ) → a + b - a ≡ b
add-sub_left a b = omega arith

-- The member lies inside a word of `w` bits.
abbrev pub Fits : Member → ℕ → Type 0
Fits m w = m.lsb + width m ≤ w

-- No bit belongs to both.
abbrev pub Apart : Member → Member → Type 0
Apart m n = (m.lsb + width m ≤ n.lsb) ⊎ (n.lsb + width n ≤ m.lsb)

abbrev pub in_member : Member → ℕ → Bool
in_member m i = leb m.lsb i && ltb (i - m.lsb) (width m)

pub test_bit-mask : (m : Member) (i : ℕ) → test_bit (mask m) i ≡ in_member m i
test_bit-mask m i =
    test_bit-mul m.lsb (2 ^ width m - 1) i ∙ ground (arith, test_bit-ones (width m) (i - m.lsb))

pub test_bit-complement :
    (w a i : ℕ) → test_bit (complement w a) i ≡ (if test_bit a i then not (ltb i w) else ltb i w)
test_bit-complement w a i = test_bit-bit_xor a (2 ^ w - 1) i ∙ ground (arith, test_bit-ones w i)

pub test_bit-get_member :
    (v : ℕ) (m : Member) (i : ℕ)
    → test_bit (get_member v m) i ≡ (ltb i (width m) && test_bit v (m.lsb + i))
unfolding get_member
test_bit-get_member v m i =
    test_bit-div m.lsb (bit_and v (mask m)) i
    ∙ test_bit-bit_and v (mask m) (m.lsb + i)
    ∙ ground (arith, test_bit-mask m (m.lsb + i))

-- `SetMember` writes the member's bits and leaves the others.
pub test_bit-set_member :
    (w v : ℕ) (m : Member) (x i : ℕ)
    → v < 2 ^ w
    → Fits m w
    → test_bit (set_member w v m x) i
      ≡ (if in_member m i then test_bit x (i - m.lsb) else test_bit v i)
unfolding set_member
test_bit-set_member w v m x i small fits =
    let cleared = complement w (mask m) in
    let moved = x * 2 ^ m.lsb % 2 ^ w in
    test_bit-bit_or (bit_and v cleared) (bit_and moved (mask m)) i
    ∙ ground (
      arith,
      test_bit-bit_and v cleared i,
      test_bit-bit_and moved (mask m) i,
      test_bit-complement w (mask m) i,
      test_bit-mask m i,
      test_bit-mod w (x * 2 ^ m.lsb) i,
      test_bit-mul m.lsb x i,
      test_bit_high w v i small,
    )

-- A member is a quotient and a remainder.
pub get_member_lem : (v : ℕ) (m : Member) → get_member v m ≡ v / 2 ^ m.lsb % 2 ^ width m
get_member_lem v m = eq_of_bits (get_member v m) (v / 2 ^ m.lsb % 2 ^ width m) λ i.
    test_bit-get_member v m i
    ∙ ground (arith, test_bit-mod (width m) (v / 2 ^ m.lsb) i, test_bit-div m.lsb v i)

-- `GetMember` after `SetMember` returns the value cut to the width of the member, for a word in
-- range and a member inside it.
pub get_member-set_member :
    (w v : ℕ) (m : Member) (x : ℕ)
    → v < 2 ^ w
    → Fits m w
    → get_member (set_member w v m x) m ≡ x % 2 ^ width m
get_member-set_member w v m x small fits =
    eq_of_bits (get_member (set_member w v m x) m) (x % 2 ^ width m) λ i.
      test_bit-get_member (set_member w v m x) m i
      ∙ ground (
        arith,
        test_bit-set_member w v m x (m.lsb + i) small fits,
        test_bit-mod (width m) x i,
        ap (test_bit x) (add-sub_left m.lsb i),
      )

pub get_member-set_member-Apart :
    (w v : ℕ) (m n : Member) (x : ℕ)
    → v < 2 ^ w
    → Fits m w
    → Apart m n
    → get_member (set_member w v m x) n ≡ get_member v n
get_member-set_member-Apart w v m n x small fits apart =
    eq_of_bits (get_member (set_member w v m x) n) (get_member v n) λ i.
      test_bit-get_member (set_member w v m x) n i
      ∙ ground
          (arith, test_bit-set_member w v m x (n.lsb + i) small fits, test_bit-get_member v n i)

pub set_member-lt :
    (w v : ℕ) (m : Member) (x : ℕ) → v < 2 ^ w → Fits m w → set_member w v m x < 2 ^ w
set_member-lt w v m x small fits =
    lt_of_bits w (set_member w v m x)
      λ i high. test_bit-set_member w v m x i small fits ∙ ground (arith, test_bit_high w v i small)

pub get_member-lt : (v : ℕ) (m : Member) → get_member v m < 2 ^ width m
get_member-lt v m =
    lt_of_bits (width m) (get_member v m) λ i high. test_bit-get_member v m i ∙ ground arith

-- A masked read keeps the bits of the mask.
pub test_bit-get_with_mask :
    (v k i : ℕ) → test_bit (get_with_mask v k) i ≡ (test_bit v i && test_bit k i)
unfolding get_with_mask
test_bit-get_with_mask v k i = test_bit-bit_and v k i

-- A masked write takes the bits of the mask from the value, and leaves the others.
pub test_bit-set_with_mask :
    (w v x k i : ℕ)
    → v < 2 ^ w
    → test_bit (set_with_mask w v x k) i ≡ (if test_bit k i then test_bit x i else test_bit v i)
unfolding set_with_mask
test_bit-set_with_mask w v x k i small =
    test_bit-bit_or (bit_and v (complement w k)) (bit_and x k) i
    ∙ ground (
      arith,
      test_bit-bit_and v (complement w k) i,
      test_bit-bit_and x k i,
      test_bit-complement w k i,
      test_bit_high w v i small,
    )

pub set_with_mask-lt : (w v x k : ℕ) → v < 2 ^ w → x < 2 ^ w → set_with_mask w v x k < 2 ^ w
set_with_mask-lt w v x k small small' = lt_of_bits w (set_with_mask w v x k) λ i high.
    test_bit-set_with_mask w v x k i small
    ∙ ground (arith, test_bit_high w v i small, test_bit_high w x i small')
