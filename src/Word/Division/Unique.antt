-- ===== src/Word/Division/Unique.antt =====
-- The conditions of a division leave one quotient and one remainder.
use rafi_1st.Base.{ℕ, ◌+◌, ◌-◌, ◌*◌, ◌/◌, ◌%◌, ◌^◌, ◌<◌, ◌≡◌, inl, inr, sym, ap, ◌∙◌, arith}
use rafi_1st.Word.{is_negative, magnitude}
use native.Mathlib.Nat.{mod-eq_of_lt, mul-add-mod_self_left, mul-add-div_right, div-eq_of_lt}
use rafi_1st.Word.Division.{IsDivision}

-- A word is its sign and its magnitude.
word_of_magnitude :
    (w x y : ℕ)
    → x < 2 ^ w
    → y < 2 ^ w
    → is_negative w x ≡ is_negative w y
    → magnitude w x ≡ magnitude w y
    → x ≡ y
word_of_magnitude w x y small small' s m = ground arith

zero_of_magnitude : (w x : ℕ) → x < 2 ^ w → magnitude w x ≡ 0 → x ≡ 0
zero_of_magnitude w x small m = ground arith

rest_of : (w a b q r : ℕ) → IsDivision w a b q r → magnitude w r ≡ magnitude w a % magnitude w b
rest_of w a b q r d = sym (
    ap (λ (t : ℕ). t % magnitude w b) {x = magnitude w a}
      {y = magnitude w b * magnitude w q + magnitude w r} (omega (arith, d.magnitudes))
    ∙ mul-add-mod_self_left (magnitude w b) (magnitude w q) (magnitude w r)
    ∙ mod-eq_of_lt d.smaller)

-- Two divisions of the same words have the same remainder.
remainder-unique : (w a b q r q' r' : ℕ) → IsDivision w a b q r → IsDivision w a b q' r' → r ≡ r'
remainder-unique w a b q r q' r' d d' =
    let same : magnitude w r ≡ magnitude w r' =
      rest_of w a b q r d ∙ sym (rest_of w a b q' r' d') in
    ground (arith, same, d.sign, d'.sign, d.remainder_fits, d'.remainder_fits)

whole_of : (w a b q r : ℕ) → IsDivision w a b q r → magnitude w q ≡ magnitude w a / magnitude w b
whole_of w a b q r d = sym (
    ap (λ (t : ℕ). t / magnitude w b) {x = magnitude w a}
      {y = magnitude w q * magnitude w b + magnitude w r} (sym d.magnitudes)
    ∙ mul-add-div_right (omega (arith, d.smaller)) (magnitude w q) (magnitude w r)
    ∙ omega (arith, div-eq_of_lt d.smaller))

-- Two divisions of the same words have the same quotient.
quotient-unique :
    (w a b q r q' r' : ℕ)
    → 2 ^ w ≡ 2 * 2 ^ (w - 1)
    → IsDivision w a b q r
    → IsDivision w a b q' r'
    → q ≡ q'
quotient-unique w a b q r q' r' double d d' =
    let same : magnitude w q ≡ magnitude w q' =
      whole_of w a b q r d ∙ sym (whole_of w a b q' r' d') in
    elim d.quotient [
      | inl zero ↦ ground (arith, same, zero, d'.quotient_fits)
      | inr (inl sign) ↦ elim d'.quotient [
        | inl zero ↦ ground (arith, same, zero, d.quotient_fits)
        | inr (inl sign') ↦
            word_of_magnitude w q q' d.quotient_fits d'.quotient_fits (sign ∙ sym sign') same
        | inr (inr (top, e)) ↦
            ground (arith, double, same, sign, top.0, top.1, e, d.quotient_fits, d'.quotient_fits)
      ]
      | inr (inr (top, e)) ↦ elim d'.quotient [
        | inl zero ↦ ground (arith, same, zero, d.quotient_fits)
        | inr (inl sign) ↦
            ground (arith, double, same, sign, top.0, top.1, e, d.quotient_fits, d'.quotient_fits)
        | inr (inr (top', e')) ↦ e ∙ sym e'
      ]
    ]
