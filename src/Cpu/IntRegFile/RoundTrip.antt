-- ===== src/Cpu/IntRegFile/RoundTrip.antt =====
-- Writes and reads of the integer registers (src/bin/rafi-emu/cpu/IntRegFile.cpp).
use rafi_1st.Base.{
  ℕ, ◌+◌, ◌*◌, ◌/◌, ◌%◌, ◌^◌, ◌<◌, ◌≡◌, refl, ap, arith, Bool-cases, inl, inr, true, leb, ltb, ◌==◌,
  if◌then◌else◌, ok, ◌>>=◌,
}
use rafi_1st.Cpu.IntRegFile.{
  IntRegFile, write32, write64, write_int32, write_int64, read_int32, read_int64,
}

-- The range check passes.
pub in_range : (i : ℕ) → i < 32 → (leb i 32 ≡ true) × (ltb i 32 ≡ true)
in_range i h = (ground arith, ground arith)

module _ (r : IntRegFile) (i j v : ℕ) (i_small : i < 32) (j_small : j < 32) where
  -- What a 64-bit read gives after a 64-bit write, and after a 32-bit write: x0 is never written,
  -- another register is as before, the register written has the value cut to the width, and a
  -- 32-bit write keeps its high half.
  pub read_int-write_int :
      ((write_int64 r i v >>= λ r'. read_int64 r' j)
        ≡ ok (if i == 0 then r.entries j else if j == i then v % 2 ^ 64 else r.entries j))
      × ((write_int32 r i v >>= λ r'. read_int64 r' j)
          ≡ ok (
              if i == 0
              then r.entries j
              else if j == i
              then r.entries i / 2 ^ 32 % 2 ^ 32 * 2 ^ 32 + v % 2 ^ 32
              else r.entries j))
      × ((write_int64 r i v >>= λ r'. read_int32 r' j)
          ≡ ok (
              if i == 0
              then r.entries j % 2 ^ 32
              else if j == i
              then v % 2 ^ 32
              else r.entries j % 2 ^ 32))
  unfolding write_int64 write_int32 read_int64 read_int32 write64 write32
  read_int-write_int =
      let low : v % 2 ^ 64 % 2 ^ 32 ≡ v % 2 ^ 32 = omega arith in
      simp
        (
          (in_range i i_small).0,
          (in_range i i_small).1,
          (in_range j j_small).0,
          (in_range j j_small).1,
        )
        (elim (Bool-cases (i == 0)) [
          | inl zero ↦ simp zero (refl, refl, refl)
          | inr other ↦ elim (Bool-cases (j == i)) [
            | inl same ↦ simp (other, same) (refl, refl, ap (λ (t : ℕ). ok t) low)
            | inr apart ↦ simp (other, apart) (refl, refl, refl)
          ]
        ])
