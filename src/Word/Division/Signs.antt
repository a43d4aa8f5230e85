-- ===== src/Word/Division/Signs.antt =====
-- The sign and the magnitude of a word that is made of them.
use rafi_1st.Base.{
  ℕ, ◌-◌, ◌*◌, ◌/◌, ◌%◌, ◌^◌, ◌<◌, ◌≤◌, ◌≡◌, ◌⊎◌, inl, inr, ap, ◌∙◌, arith, Bool, true, false,
  if◌then◌else◌, Bool-cases,
}
use rafi_1st.Base.Bits.{two_pow-pos}
use native.Mathlib.Decide.{dec_lt}
use rafi_1st.Word.{is_negative, negate, magnitude, signed_div}
use native.Mathlib.Nat.{mod-eq_of_lt, mod_self}
use rafi_1st.Word.Division.{IsOverflow, quotient_sign}

pub half : (w a : ℕ) → 2 ^ w ≡ 2 * 2 ^ (w - 1) → a < 2 ^ w → magnitude w a ≤ 2 ^ (w - 1)
half w a double small = ground arith

-- A number of at most half of the words, with the sign `s`
module _ (w : ℕ) (double : 2 ^ w ≡ 2 * 2 ^ (w - 1)) (r : ℕ) (small : r ≤ 2 ^ (w - 1)) where
  negate-cases : ((r ≡ 0) × (negate w r ≡ 0)) ⊎ ((0 < r) × (negate w r ≡ 2 ^ w - r))
  negate-cases = elim (dec_lt 0 r) [
    | yes positive ↦
        inr (positive, mod-eq_of_lt {n = 2 ^ w - r} {m = 2 ^ w} (omega (arith, two_pow-pos w)))
    | no zero ↦
        let full : 2 ^ w - r ≡ 2 ^ w = omega arith in
        inl (omega arith, ap (λ (t : ℕ). t % 2 ^ w) full ∙ mod_self (2 ^ w))
  ]

  pub magnitude-signed : (s : Bool) → magnitude w (if s then negate w r else r) ≡ r
  magnitude-signed true = ground (arith, negate-cases, two_pow-pos w)
  magnitude-signed false = ground arith

  pub signed-lt : (s : Bool) → (if s then negate w r else r) < 2 ^ w
  signed-lt true = ground (arith, negate-cases, two_pow-pos w)
  signed-lt false = ground (arith, two_pow-pos w)

  negate-sign : (negate w r ≡ 0) ⊎ (is_negative w (negate w r) ≡ true)
  negate-sign = ground (arith, negate-cases)

pub sign_of :
    (w : ℕ) (double : 2 ^ w ≡ 2 * 2 ^ (w - 1)) (r : ℕ)
    → r < 2 ^ (w - 1)
    → (s : Bool)
    → ((if s then negate w r else r) ≡ 0) ⊎ (is_negative w (if s then negate w r else r) ≡ s)
sign_of w double r small true = negate-sign w double r (omega arith)
sign_of w double r small false = ground arith

-- The quotient is the number with the sign `quotient_sign`.
pub signed_div_lem :
    (w a b : ℕ)
    → signed_div w a b ≡ (
        if quotient_sign (is_negative w a) (is_negative w b)
        then negate w (magnitude w a / magnitude w b)
        else magnitude w a / magnitude w b)
unfolding signed_div
signed_div_lem w a b = ground arith

-- A quotient `q` of half of the words
pub signed_top :
    (w a b : ℕ) (double : 2 ^ w ≡ 2 * 2 ^ (w - 1)) (small : a < 2 ^ w) (small_b : b < 2 ^ w) (q : ℕ)
    → q ≡ 2 ^ (w - 1)
    → magnitude w a ≡ 2 ^ (w - 1)
    → magnitude w b ≡ 1
    → let minus = quotient_sign (is_negative w a) (is_negative w b) in
      let s = if minus then negate w q else q in
      (s ≡ 0) ⊎ (is_negative w s ≡ minus) ⊎ (IsOverflow w a b × (s ≡ a))
signed_top w a b double small small_b q e ea eb = elim (Bool-cases (is_negative w a)) [
  | inl na ↦ elim (Bool-cases (is_negative w b)) [
    | inl nb ↦ simp (na, nb) (inr (inr ((ground arith, ground arith), ground arith)))
    | inr nb ↦
        simp (na, nb)
          (elim (negate-sign w double q (omega arith)) [
            | inl zero ↦ inl zero
            | inr same ↦ inr (inl same)
          ])
  ]
  | inr na ↦ absurd (ground arith)
]
