-- ===== src/Word/Division/Product.antt =====
-- The quotient times the divisor and the remainder, on machine words.
use rafi_1st.Base.{
  ℕ, ◌+◌, ◌-◌, ◌*◌, ◌/◌, ◌%◌, ◌^◌, ◌<◌, ◌≤◌, ◌≡◌, inl, inr, refl, sym, ap, ◌∙◌, arith, Bool-cases,
}
use rafi_1st.Word.{is_negative, signed_div, signed_rem}
use native.Mathlib.Nat.{div-add-mod, div-le_self, mod-le, mod-eq_of_lt, mul-add-mod_self_left}

-- Numbers that differ by multiples of `p`
pub mod_of : (p k l t y : ℕ) → y < p → t + p * k ≡ y + p * l → t % p ≡ y
mod_of p k l t y small e =
    let moved : p * k + t ≡ p * l + y = omega (arith, e) in
    sym (mul-add-mod_self_left p k t)
    ∙ ap (λ (n : ℕ). n % p) moved
    ∙ mul-add-mod_self_left p l y
    ∙ mod-eq_of_lt small

-- A word `p - n`, modulo `p`
complement : (p n : ℕ) → n ≤ p → (p - n) % p + p * ((p - n) / p) + n ≡ p
complement p n le = omega (arith, div-add-mod (p - n) p)

-- The product in the four cases of the signs; `a'` and `b'` are the magnitudes.
module _ (p a b a' b' q r : ℕ) (split : b' * q + r ≡ a') (small : a < p) where
  both_positive : a ≡ a' → b ≡ b' → (q * b + r) % p ≡ a
  both_positive ea eb = mod_of p 0 0 (q * b + r) a small (omega (arith, ap (λ (t : ℕ). q * t) eb))

  negative_divisor : q ≤ p → a ≡ a' → b + b' ≡ p → ((p - q) % p * b + r) % p ≡ a
  negative_divisor le ea eb =
      let n : ℕ = (p - q) / p in
      mod_of p (q + n * b) b ((p - q) % p * b + r) a small
        (omega (arith, ap (λ (t : ℕ). t * b) (complement p q le), ap (λ (t : ℕ). q * t) eb))

  negative_dividend : q ≤ p → r ≤ p → a + a' ≡ p → b ≡ b' → ((p - q) % p * b + (p - r) % p) % p ≡ a
  negative_dividend le le' ea eb =
      let n : ℕ = (p - q) / p in
      let m : ℕ = (p - r) / p in
      mod_of p (n * b + m) b ((p - q) % p * b + (p - r) % p) a small (
        omega (
          arith,
          ap (λ (t : ℕ). t * b) (complement p q le),
          complement p r le',
          ap (λ (t : ℕ). q * t) eb,
        ))

  both_negative : r ≤ p → a + a' ≡ p → b + b' ≡ p → (q * b + (p - r) % p) % p ≡ a
  both_negative le ea eb =
      mod_of p ((p - r) / p) q (q * b + (p - r) % p) a small
        (omega (arith, complement p r le, ap (λ (t : ℕ). q * t) eb))

module _ (w a b : ℕ) (double : 2 ^ w ≡ 2 * 2 ^ (w - 1)) (small : a < 2 ^ w) (small_b : b < 2 ^ w)
    (positive : 0 < b) where
  pub signed_product : (signed_div w a b * b + signed_rem w a b) % 2 ^ w ≡ a
  unfolding signed_div signed_rem
  signed_product =
      let p : ℕ = 2 ^ w in
      elim (Bool-cases (is_negative w a)) [
        | inl na ↦ elim (Bool-cases (is_negative w b)) [
          | inl nb ↦
              simp (na, nb)
                (both_negative p a b (p - a) (p - b) ((p - a) / (p - b)) ((p - a) % (p - b))
                  (div-add-mod (p - a) (p - b)) small (omega (arith, mod-le (p - a) (p - b)))
                  (omega arith) (omega arith))
          | inr nb ↦
              simp (na, nb)
                (negative_dividend p a b (p - a) b ((p - a) / b) ((p - a) % b)
                  (div-add-mod (p - a) b) small (omega (arith, div-le_self (p - a) b))
                  (omega (arith, mod-le (p - a) b)) (omega arith) refl)
        ]
        | inr na ↦ elim (Bool-cases (is_negative w b)) [
          | inl nb ↦
              simp (na, nb)
                (negative_divisor p a b a (p - b) (a / (p - b)) (a % (p - b))
                  (div-add-mod a (p - b)) small (omega (arith, div-le_self a (p - b))) refl
                  (omega arith))
          | inr nb ↦
              simp (na, nb)
                (both_positive p a b a b (a / b) (a % b) (div-add-mod a b) small refl refl)
        ]
      ]
