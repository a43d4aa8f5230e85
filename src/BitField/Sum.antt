-- ===== src/BitField/Sum.antt =====
-- `SetMember` on members that are still zero, as addition.
use rafi_1st.Base.{ℕ, ◌+◌, ◌*◌, ◌/◌, ◌%◌, ◌^◌, ◌-◌, bit_or, ◌<◌, ◌≡◌, ap, ◌∙◌, sym, arith}
use native.Mathlib.Nat.{div-add-mod, mul-add, mod-eq_of_lt, mod-lt, div-eq_of_lt, zero-mod, mod-le}
use rafi_1st.Base.Bits.{
  test_bit, test_bit-mod, test_bit-div, eq_of_bits, test_bit-bit_or, test_bit-mul, test_bit_high,
  test_bit-zero, test_bit-ones, two_pow-pos,
}
use rafi_1st.BitField.{Member, width, get_member, set_member}
use rafi_1st.BitField.Laws.{
  Fits, test_bit-set_member, test_bit-get_member, get_member_lem, get_member-set_member,
}

module _ (w v : ℕ) (m : Member) (x : ℕ) (small : v < 2 ^ w) (fits : Fits m w) where
  set_member-above : set_member w v m x / 2 ^ (m.lsb + width m) ≡ v / 2 ^ (m.lsb + width m)
  set_member-above =
      eq_of_bits (set_member w v m x / 2 ^ (m.lsb + width m)) (v / 2 ^ (m.lsb + width m)) λ i.
        test_bit-div (m.lsb + width m) (set_member w v m x) i
        ∙ test_bit-set_member w v m x (m.lsb + width m + i) small fits
        ∙ ground (arith, test_bit-div (m.lsb + width m) v i)

  set_member-below : set_member w v m x % 2 ^ m.lsb ≡ v % 2 ^ m.lsb
  set_member-below = eq_of_bits (set_member w v m x % 2 ^ m.lsb) (v % 2 ^ m.lsb) λ i.
      test_bit-mod m.lsb (set_member w v m x) i
      ∙ ground (arith, test_bit-set_member w v m x i small fits, test_bit-mod m.lsb v i)

-- A number is three parts: above the member, the member, and below it.
three_parts : (a l k : ℕ) → a ≡ 2 ^ l * (2 ^ k * (a / 2 ^ (l + k)) + a / 2 ^ l % 2 ^ k) + a % 2 ^ l
three_parts a l k =
    let lower = div-add-mod a (2 ^ l) in
    let upper = div-add-mod (a / 2 ^ l) (2 ^ k) in
    let same : a / 2 ^ l / 2 ^ k ≡ a / 2 ^ (l + k) =
      eq_of_bits (a / 2 ^ l / 2 ^ k) (a / 2 ^ (l + k)) λ i.
        test_bit-div k (a / 2 ^ l) i
        ∙ test_bit-div l a (k + i)
        ∙ ap (test_bit a) (let e : l + (k + i) ≡ l + k + i = omega arith in e)
        ∙ sym (test_bit-div (l + k) a i) in
    sym (
      ap (λ (t : ℕ). 2 ^ l * (2 ^ k * t + a / 2 ^ l % 2 ^ k) + a % 2 ^ l) (sym same)
      ∙ ap (λ (t : ℕ). 2 ^ l * t + a % 2 ^ l) upper
      ∙ lower)

-- Writing a member that holds zero adds the value, moved to its place.
pub set_member-eq-add :
    (w v : ℕ) (m : Member) (x : ℕ)
    → v < 2 ^ w
    → Fits m w
    → get_member v m ≡ 0
    → x < 2 ^ width m
    → set_member w v m x ≡ v + x * 2 ^ m.lsb
set_member-eq-add w v m x small fits empty in_range =
    let r = set_member w v m x in
    let l = m.lsb in
    let k = width m in
    let written : r / 2 ^ l % 2 ^ k ≡ x =
      sym (get_member_lem r m) ∙ get_member-set_member w v m x small fits ∙ mod-eq_of_lt in_range in
    let was : v / 2 ^ l % 2 ^ k ≡ 0 = sym (get_member_lem v m) ∙ empty in
    three_parts r l k
    ∙ ap (λ (t : ℕ). 2 ^ l * (2 ^ k * (r / 2 ^ (l + k)) + t) + r % 2 ^ l) written
    ∙ ap (λ (t : ℕ). 2 ^ l * (2 ^ k * t + x) + r % 2 ^ l) (set_member-above w v m x small fits)
    ∙ ap (λ (t : ℕ). 2 ^ l * (2 ^ k * (v / 2 ^ (l + k)) + x) + t)
        (set_member-below w v m x small fits)
    ∙ omega (
      arith,
      mul-add (2 ^ l) (2 ^ k * (v / 2 ^ (l + k))) x,
      three_parts v l k ∙ ap (λ (t : ℕ). 2 ^ l * (2 ^ k * (v / 2 ^ (l + k)) + t) + v % 2 ^ l) was,
      mul-add (2 ^ l) (2 ^ k * (v / 2 ^ (l + k))) 0,
    )

-- `|` of a number and a member that it does not touch
pub bit_or-eq-add :
    (w v : ℕ) (m : Member) (x : ℕ)
    → v < 2 ^ w
    → Fits m w
    → get_member v m ≡ 0
    → x < 2 ^ width m
    → bit_or v (x * 2 ^ m.lsb) ≡ v + x * 2 ^ m.lsb
bit_or-eq-add w v m x small fits empty in_range =
    eq_of_bits (bit_or v (x * 2 ^ m.lsb)) (set_member w v m x) (λ i.
      test_bit-bit_or v (x * 2 ^ m.lsb) i
      ∙ ground (
        arith,
        test_bit-set_member w v m x i small fits,
        test_bit-mul m.lsb x i,
        test_bit_high (width m) x (i - m.lsb) in_range,
        test_bit-get_member v m (i - m.lsb),
        ap (λ (t : ℕ). test_bit t (i - m.lsb)) empty,
        test_bit-zero (i - m.lsb),
        ap (test_bit v) {x = m.lsb + (i - m.lsb)} {y = i},
      ))
    ∙ set_member-eq-add w v m x small fits empty in_range

-- `|` with every bit from `lsb` up to the width
pub bit_or-high :
    (w v : ℕ) (m : Member)
    → v < 2 ^ w
    → m.lsb + width m ≡ w
    → bit_or v ((2 ^ width m - 1) * 2 ^ m.lsb) ≡ (2 ^ width m - 1) * 2 ^ m.lsb + v % 2 ^ m.lsb
bit_or-high w v m small whole =
    let ones = 2 ^ width m - 1 in
    let low = v % 2 ^ m.lsb in
    let low-lt : low < 2 ^ m.lsb = mod-lt v {m = 2 ^ m.lsb} (two_pow-pos m.lsb) in
    eq_of_bits (bit_or v (ones * 2 ^ m.lsb)) (bit_or low (ones * 2 ^ m.lsb)) (λ i.
      test_bit-bit_or v (ones * 2 ^ m.lsb) i
      ∙ ground (
        arith,
        test_bit-bit_or low (ones * 2 ^ m.lsb) i,
        test_bit-mul m.lsb ones i,
        test_bit-ones (width m) (i - m.lsb),
        test_bit-mod m.lsb v i,
        test_bit_high w v i small,
      ))
    ∙ bit_or-eq-add w low m ones (omega (arith, mod-le v (2 ^ m.lsb))) (omega arith)
        (get_member_lem low m
          ∙ ap (λ (t : ℕ). t % 2 ^ width m) (div-eq_of_lt low-lt)
          ∙ zero-mod (2 ^ width m))
        (omega (arith, two_pow-pos (width m)))
    ∙ omega arith
