-- ===== src/Cpu/Executor/Compressed/WordAdd.antt =====
-- c.addiw of src/bin/rafi-emu/cpu/Executor.cpp (ProcessRV64C_AluImm) against addiw.
use rafi_1st.Base.{
  ℕ, ◌+◌, ◌-◌, ◌/◌, ◌%◌, ◌^◌, ◌<◌, ◌≤◌, ◌≡◌, ◌⊎◌, refl, inl, inr, ap, arith, leb, Bool-cases, ◌==◌,
  if◌then◌else◌, ok,
}
use rafi_1st.Base.Bits.{bit_and-two_pow, test_bit-div, test_bit_zero_lem}
use rafi_1st.BitField.{bits}
use rafi_1st.BitField.Sum.{bit_or-high}
use rafi_1st.Util.{int32_to_uint64}
use rafi_1st.Decoder.Fields.{sign_extend}
use rafi_1st.Decoder.Ops.{addiw, c_addiw}
use rafi_1st.Cpu.Executor.Integer.{alu_imm64}
use rafi_1st.Cpu.Executor.Compressed.{c_alu_imm64}
use rafi_1st.Word.{wrap_add}

sign_extend32_lem :
    (x : ℕ)
    → x < 2 ^ 64
    → sign_extend 32 x ≡ (if x / 2 ^ 31 % 2 == 0 then x else 2 ^ 64 - 2 ^ 31 + x % 2 ^ 31)
unfolding sign_extend
sign_extend32_lem x small = elim (Bool-cases (x / 2 ^ 31 % 2 == 0)) [
  | inl low ↦
      ground (arith, bit_and-two_pow x 31, test_bit-div 31 x 0, test_bit_zero_lem (x / 2 ^ 31))
  | inr high ↦ ground (
    arith,
    bit_and-two_pow x 31,
    test_bit-div 31 x 0,
    test_bit_zero_lem (x / 2 ^ 31),
    bit_or-high 64 x (bits 63 31) small refl,
  )
]

module _ (s imm : ℕ) (small : s < 2 ^ 32) where
  low_word : wrap_add 32 s (imm % 2 ^ 32) ≡ wrap_add 64 (int32_to_uint64 s) imm % 2 ^ 32
  low_word = ground arith

  -- The word that addiw extends, extended
  extended :
      (w : ℕ)
      → w < 2 ^ 32
      → sign_extend 32 (int32_to_uint64 w) ≡ (if w / 2 ^ 31 == 0 then w else 2 ^ 64 - 2 ^ 32 + w)
  extended w bound = ground (arith, sign_extend32_lem (int32_to_uint64 w) (ground arith))

  -- From a register's word, c.addiw gives what addiw gives, but when bit 31 of the sum of 64 bits
  -- is clear and the sum is more than a word: then c.addiw gives the sum itself, and addiw the
  -- sum's low word.
  pub c_addiw-addiw :
      (src1 src1_u imm_u : ℕ)
      → let sum = wrap_add 64 (int32_to_uint64 s) imm in
        let compressed = c_alu_imm64 c_addiw src1 src1_u s imm in
        let full = alu_imm64 addiw src1 imm src1_u imm_u s (imm % 2 ^ 32) in
        (compressed ≡ full)
        ⊎ ((2 ^ 32 ≤ sum)
            × (sum / 2 ^ 31 % 2 ≡ 0)
            × (compressed ≡ ok sum)
            × (full ≡ ok (sum % 2 ^ 32)))
  c_addiw-addiw src1 src1_u imm_u =
      let sum : ℕ = wrap_add 64 (int32_to_uint64 s) imm in
      let low : ℕ = wrap_add 32 s (imm % 2 ^ 32) in
      let word : low ≡ sum % 2 ^ 32 = low_word in
      let first : sign_extend 32 sum
          ≡ (if sum / 2 ^ 31 % 2 == 0 then sum else 2 ^ 64 - 2 ^ 31 + sum % 2 ^ 31) =
        sign_extend32_lem sum (omega arith) in
      let second : sign_extend 32 (int32_to_uint64 low)
          ≡ (if low / 2 ^ 31 == 0 then low else 2 ^ 64 - 2 ^ 32 + low) =
        extended low (omega arith) in
      elim (Bool-cases (sum / 2 ^ 31 % 2 == 0)) [
        | inl clear ↦ elim (Bool-cases (leb (2 ^ 32) sum)) [
          | inl high ↦ inr (
            ground arith,
            ground arith,
            ap (λ (t : ℕ). ok t) (ground arith),
            ap (λ (t : ℕ). ok t) (ground arith),
          )
          | inr fits ↦ inl (ap (λ (t : ℕ). ok t) (ground arith))
        ]
        | inr set ↦ inl (ap (λ (t : ℕ). ok t) (ground arith))
      ]
