-- ===== src/Word/Division/Signed.antt =====
-- The signed operators of C++ give a quotient and a remainder.
use rafi_1st.Base.{ℕ, ◌+◌, ◌-◌, ◌*◌, ◌/◌, ◌%◌, ◌^◌, ◌<◌, ◌≤◌, ◌≡◌, ◌⊎◌, inl, inr, ap, arith}
use rafi_1st.Base.Bits.{two_pow-pos}
use native.Mathlib.Decide.{dec_lt}
use rafi_1st.Word.{is_negative, magnitude, signed_div, signed_rem}
use native.Mathlib.Nat.{div-add-mod, div-le_self, mod-lt}
use rafi_1st.Word.Division.{IsOverflow, quotient_sign, IsDivision}
use rafi_1st.Word.Division.Signs.{
  half, magnitude-signed, signed-lt, sign_of, signed_div_lem, signed_top,
}
use rafi_1st.Word.Division.Product.{signed_product}

module _ (w a b : ℕ) (double : 2 ^ w ≡ 2 * 2 ^ (w - 1)) (small : a < 2 ^ w) (small_b : b < 2 ^ w)
    (positive : 0 < b) where
  rest-smaller : magnitude w a % magnitude w b < magnitude w b
  rest-smaller = mod-lt (magnitude w a) {m = magnitude w b} (ground arith)

  magnitude_le : magnitude w b ≤ 2 ^ (w - 1)
  magnitude_le = half w b double small_b

  quotient_le : magnitude w a / magnitude w b ≤ 2 ^ (w - 1)
  quotient_le = omega (arith, div-le_self (magnitude w a) (magnitude w b), half w a double small)

  -- A quotient of half of the words is that of the most negative word by 1 or -1.
  unit_divisor :
      magnitude w a / magnitude w b ≡ 2 ^ (w - 1)
      → (magnitude w a ≡ 2 ^ (w - 1)) × (magnitude w b ≡ 1)
  unit_divisor e =
      let q : ℕ = magnitude w a / magnitude w b in
      let whole : q ≤ magnitude w a = div-le_self (magnitude w a) (magnitude w b) in
      let top : magnitude w a ≤ 2 ^ (w - 1) = half w a double small in
      let d : ℕ = magnitude w b - 1 in
      let split : magnitude w b ≡ d + 1 = omega (arith, rest-smaller) in
      let scaled : magnitude w b * q ≡ (d + 1) * q = ap (λ (t : ℕ). t * q) split in
      let product_le : magnitude w b * q ≤ magnitude w a =
        omega (arith, div-add-mod (magnitude w a) (magnitude w b)) in
      let none : d * q ≡ 0 = omega (arith, scaled, product_le, e, top) in
      elim (dec_lt 0 d) [
        | no below ↦ (omega arith, omega arith)
        | yes above ↦
            let apart : d * q ≡ (d - 1 + 1) * q =
              ap (λ (t : ℕ). t * q) {x = d} {y = d - 1 + 1} (omega arith) in
            absurd (omega (arith, apart, none, e, two_pow-pos (w - 1)))
      ]

  quotient_sign_lem :
      (signed_div w a b ≡ 0)
      ⊎ (is_negative w (signed_div w a b) ≡ quotient_sign (is_negative w a) (is_negative w b))
      ⊎ (IsOverflow w a b × (signed_div w a b ≡ a))
  quotient_sign_lem =
      let q : ℕ = magnitude w a / magnitude w b in
      rw (signed_div_lem w a b) (elim (dec_lt q (2 ^ (w - 1))) [
        | yes below ↦
            elim (sign_of w double q below (quotient_sign (is_negative w a) (is_negative w b))) [
              | inl zero ↦ inl zero
              | inr same ↦ inr (inl same)
            ]
        | no above ↦
            let units = unit_divisor (omega (arith, quotient_le)) in
            signed_top w a b double small small_b q (omega (arith, quotient_le)) units.0 units.1
      ])

  -- The signed operators give a quotient and a remainder.
  pub signed_div-IsDivision : IsDivision w a b (signed_div w a b) (signed_rem w a b)
  unfolding signed_rem
  signed_div-IsDivision =
      let q : ℕ = magnitude w a / magnitude w b in
      let r : ℕ = magnitude w a % magnitude w b in
      let below : r < 2 ^ (w - 1) = omega (arith, rest-smaller, magnitude_le) in
      let minus = quotient_sign (is_negative w a) (is_negative w b) in
      let r_magnitude = magnitude-signed w double r (omega arith) (is_negative w a) in
      record {
        quotient_fits = rw (signed_div_lem w a b) (signed-lt w double q quotient_le minus);
        remainder_fits = signed-lt w double r (omega arith) (is_negative w a);
        magnitudes =
            rw (signed_div_lem w a b, magnitude-signed w double q quotient_le minus, r_magnitude)
              (omega (arith, div-add-mod (magnitude w a) (magnitude w b)));
        smaller = omega (arith, r_magnitude, rest-smaller);
        sign = sign_of w double r below (is_negative w a);
        quotient = quotient_sign_lem;
        product = signed_product w a b double small small_b positive;
      }
