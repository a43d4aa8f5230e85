-- ===== src/Emu/Memory/Laws.antt =====
-- What a memory returns after a write.
use rafi_1st.Base.{
  ℕ, zero, suc, ◌+◌, ◌-◌, ◌*◌, ◌/◌, ◌%◌, ◌^◌, ◌≤◌, ◌<◌, ◌⊎◌, ◌≡◌, refl, ap, ◌∙◌, sym, arith,
}
use native.Mathlib.Nat.{
  div-div-eq-div-mul, pow-suc, pow-succ', mod-one, div-add-mod, mod-lt, mod-eq_of_lt,
  mul-add-mod_self_left, mul_assoc, one-le-pow,
}
use rafi_1st.Emu.Memory.{load_bytes, store_bytes}

-- The lowest digit in base 256, and the others
low_digit : (x p : ℕ) → 0 < p → x % (256 * p) ≡ x % 256 + 256 * (x / 256 % p)
low_digit x p pos =
    let q = x / 256 in
    let rest = x % 256 + 256 * (q % p) in
    let split : x ≡ 256 * p * (q / p) + rest =
      omega (arith, div-add-mod q p, mul_assoc 256 p (q / p)) in
    let small : rest < 256 * p = omega (arith, mod-lt q {m = p} pos) in
    ap (λ (t : ℕ). t % (256 * p)) split
    ∙ mul-add-mod_self_left (256 * p) (q / p) rest
    ∙ mod-eq_of_lt small

stored_byte :
    (body : ℕ → ℕ) (n at value k : ℕ)
    → k < n
    → store_bytes body n at value (at + k) ≡ value / 256 ^ k % 256
unfolding store_bytes
stored_byte body n at value k h =
    let place : at + k - at ≡ k = omega arith in rw place (ground arith)

-- The bytes inside the written range
pub load_bytes-store_bytes_within :
    (body : ℕ → ℕ) (n at value k m : ℕ)
    → k + m ≤ n
    → load_bytes (store_bytes body n at value) m (at + k) ≡ value / 256 ^ k % 256 ^ m
unfolding load_bytes
load_bytes-store_bytes_within body n at value k zero h = sym (mod-one (value / 256 ^ k))
load_bytes-store_bytes_within body n at value k (suc m) h =
    let next = load_bytes-store_bytes_within body n at value (suc k) m (omega arith) in
    let shift : suc (at + k) ≡ at + suc k = omega arith in
    let higher : value / 256 ^ suc k ≡ value / 256 ^ k / 256 =
      ap (λ (t : ℕ). value / t)
        (let e : 256 ^ suc k ≡ 256 ^ k * 256 = omega (arith, pow-suc 256 k) in e)
      ∙ sym (div-div-eq-div-mul value (256 ^ k) 256) in
    let pos : 0 < 256 ^ m = one-le-pow m 256 (omega arith) in
    ap (λ (t : ℕ). t % 256 + 256 * load_bytes (store_bytes body n at value) m (suc (at + k)))
      (stored_byte body n at value k (omega arith))
    ∙ ap
        (λ (t : ℕ).
          value / 256 ^ k % 256 % 256 + 256 * load_bytes (store_bytes body n at value) m t)
        shift
    ∙ ap (λ (t : ℕ). value / 256 ^ k % 256 % 256 + 256 * t)
        (next ∙ ap (λ (t : ℕ). t % 256 ^ m) higher)
    ∙ omega (
      arith,
      low_digit (value / 256 ^ k) (256 ^ m) pos,
      ap (λ (t : ℕ). value / 256 ^ k % t) (pow-succ' 256 m),
    )

-- Bytes outside the written range stay.
pub load_bytes-store_bytes_apart :
    (body : ℕ → ℕ) (n at value m at' : ℕ)
    → (at + n ≤ at') ⊎ (at' + m ≤ at)
    → load_bytes (store_bytes body n at value) m at' ≡ load_bytes body m at'
unfolding load_bytes store_bytes
load_bytes-store_bytes_apart body n at value zero at' h = refl
load_bytes-store_bytes_apart body n at value (suc m) at' h =
    rw (load_bytes-store_bytes_apart body n at value m (suc at') (ground arith)) (ground arith)
