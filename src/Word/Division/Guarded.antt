-- ===== src/Word/Division/Guarded.antt =====
-- Division under the guards of the executor: by 0, and the most negative number by -1.
use rafi_1st.Base.{
  ℕ, ◌+◌, ◌-◌, ◌*◌, ◌/◌, ◌%◌, ◌^◌, ◌<◌, ◌≡◌, inl, inr, ◌==◌, ◌&&◌, ok, refl, sym, ap, arith,
  if◌then◌else◌, Bool-cases,
}
use rafi_1st.Word.{signed_div, signed_rem, checked_div, checked_rem, checked_udiv, checked_urem}
use native.Mathlib.Nat.{div-add-mod, mod-lt}
use rafi_1st.Word.Division.{IsDivision, IsDivided, IsDividedUnsigned}
use rafi_1st.Word.Division.Product.{mod_of}
use rafi_1st.Word.Division.Signed.{signed_div-IsDivision}

module _ (w a b : ℕ) (wide : 1 < 2 ^ (w - 1)) (double : 2 ^ w ≡ 2 * 2 ^ (w - 1)) (small : a < 2 ^ w)
    (small_b : b < 2 ^ w) where
  pub overflow-IsDivision : a ≡ 2 ^ (w - 1) → b ≡ 2 ^ w - 1 → IsDivision w a b (2 ^ (w - 1)) 0
  overflow-IsDivision ea eb =
      let h : ℕ = 2 ^ (w - 1) in
      let next : b + 1 ≡ 2 ^ w = omega arith in
      record {
        quotient_fits = omega arith;
        remainder_fits = omega arith;
        magnitudes = ground arith;
        smaller = ground arith;
        sign = inl refl;
        quotient = inr (inr ((ea, eb), sym ea));
        product =
            mod_of (2 ^ w) 1 h (h * b + 0) a small (omega (arith, ap (λ (t : ℕ). h * t) next));
      }

  pub guarded_div-IsDivided :
      IsDivided w a b
        (if a == 2 ^ (w - 1) && b == 2 ^ w - 1
          then ok (2 ^ (w - 1))
          else if b == 0
          then ok (2 ^ w - 1)
          else checked_div w a b)
        (if a == 2 ^ (w - 1) && b == 2 ^ w - 1
          then ok 0
          else if b == 0
          then ok a
          else checked_rem w a b)
  guarded_div-IsDivided = elim (Bool-cases (a == 2 ^ (w - 1) && b == 2 ^ w - 1)) [
    | inl overflow ↦
        simp overflow
          (inr (2 ^ (w - 1), 0, refl, refl, overflow-IsDivision (ground arith) (ground arith)))
    | inr usual ↦ elim (Bool-cases (b == 0)) [
      | inl zero ↦ simp (usual, zero) (inl (ground arith, refl, refl))
      | inr positive ↦
          simp (usual, positive)
            (inr (
              signed_div w a b,
              signed_rem w a b,
              refl,
              refl,
              signed_div-IsDivision w a b double small small_b (ground arith),
            ))
    ]
  ]

  pub guarded_udiv-IsDivided :
      IsDividedUnsigned w a b
        (if b == 0 then ok (2 ^ w - 1) else checked_udiv a b)
        (if b == 0 then ok a else checked_urem a b)
  guarded_udiv-IsDivided = elim (Bool-cases (b == 0)) [
    | inl zero ↦ simp zero (inl (ground arith, refl, refl))
    | inr positive ↦ simp positive (
        inr (
          a / b,
          a % b,
          refl,
          refl,
          omega (arith, div-add-mod a b),
          mod-lt a {m = b} (ground arith),
        ))
  ]
