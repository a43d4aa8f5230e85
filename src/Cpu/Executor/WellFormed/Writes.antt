-- ===== src/Cpu/Executor/WellFormed/Writes.antt =====
-- The writes of registers in src/bin/rafi-emu/cpu/Executor.cpp: the registers hold words of 64
-- bits, and x0 holds 0.
use rafi_1st.Base
use rafi_1st.Base.{
  ℕ, ◌+◌, ◌*◌, ◌/◌, ◌%◌, ◌^◌, ◌<◌, ◌≡◌, arith, Bool, true, false, ◌==◌, if◌then◌else◌, Result, ok,
  throw,
}
use rafi_1st.Cpu.IntRegFile.{
  IntRegFile, check_reg_id, write32, write64, write_int32, write_uint32, write_int64, write_uint64,
}
use rafi_1st.Cpu.FpRegFile
use rafi_1st.Cpu.FpRegFile.{FpRegFile}
use rafi_1st.Cpu.Executor.Machine.{Machine}
use rafi_1st.Cpu.Executor.Steps.{
  put_int_regs, put_int32, put_uint32, put_int64, put_uint64, put_fp32, put_fp64,
}
use rafi_1st.Base.{List}
use rafi_1st.Cpu.Executor.Keeps.{Keeps, Keeps-modify, Ends}

pub record IsIntRegFile (r : IntRegFile) : Type 0 where
  pub zero_register : r.entries 0 ≡ 0
  pub words : (i : ℕ) → r.entries i < 2 ^ 64

pub record IsFpRegFile (r : FpRegFile) : Type 0 where
  pub words : (i : ℕ) → r.entries i < 2 ^ 64

abbrev pub IsWellFormed : {B : Type 0} → Machine B → Type 0
IsWellFormed m = IsIntRegFile m.int_regs × IsFpRegFile m.fp_regs

write32-IsIntRegFile : (r : IntRegFile) (i v : ℕ) → IsIntRegFile r → IsIntRegFile (write32 r i v)
unfolding write32
write32-IsIntRegFile r i v h = record {
  zero_register = ground (arith, h.zero_register);
  words = λ j. ground (arith, h.words j);
}

write64-IsIntRegFile : (r : IntRegFile) (i v : ℕ) → IsIntRegFile r → IsIntRegFile (write64 r i v)
unfolding write64
write64-IsIntRegFile r i v h = record {
  zero_register = ground (arith, h.zero_register);
  words = λ j. ground (arith, h.words j);
}

-- What a write of a register file returns has `Q`.
abbrev Gives : {R : Type 0} → (R → Type 0) → Result R → Type 0
Gives Q (ok r) = Q r
Gives Q (throw e) = Unit

checked :
    {R : Type 0} (Q : R → Type 0) (check : Result (Unit {0})) (r : R)
    → Q r
    → Gives Q (Base.◌>>◌ check (ok r))
checked Q (ok u) r h = h
checked Q (throw e) r h = tt

module _ {B : Type 0} where
  with_int_regs :
      (m : Machine B) (r : Result IntRegFile)
      → IsWellFormed m
      → Gives IsIntRegFile r
      → Ends IsWellFormed (Base.◌>>=◌ r (λ x. ok (record m { int_regs = x })))
  with_int_regs m (ok r) h g = (g, h.1)
  with_int_regs m (throw e) h g = tt

  with_fp_regs :
      (m : Machine B) (r : Result FpRegFile)
      → IsWellFormed m
      → Gives IsFpRegFile r
      → Ends IsWellFormed (Base.◌>>=◌ r (λ x. ok (record m { fp_regs = x })))
  with_fp_regs m (ok r) h g = (h.0, g)
  with_fp_regs m (throw e) h g = tt

  pub put_int32-IsWellFormed : (i v : ℕ) → Keeps IsWellFormed (put_int32 {B = B} i v)
  unfolding put_int32 put_int_regs write_int32
  put_int32-IsWellFormed i v = Keeps-modify IsWellFormed _ (λ m h.
      with_int_regs m (write_int32 m.int_regs i v) h
        (checked IsIntRegFile (check_reg_id i) _ (write32-IsIntRegFile m.int_regs i v h.0)))

  pub put_uint32-IsWellFormed : (i v : ℕ) → Keeps IsWellFormed (put_uint32 {B = B} i v)
  unfolding put_uint32 put_int_regs write_uint32
  put_uint32-IsWellFormed i v = Keeps-modify IsWellFormed _ (λ m h.
      with_int_regs m (write_uint32 m.int_regs i v) h
        (checked IsIntRegFile (check_reg_id i) _ (write32-IsIntRegFile m.int_regs i v h.0)))

  pub put_int64-IsWellFormed : (i v : ℕ) → Keeps IsWellFormed (put_int64 {B = B} i v)
  unfolding put_int64 put_int_regs write_int64
  put_int64-IsWellFormed i v = Keeps-modify IsWellFormed _ (λ m h.
      with_int_regs m (write_int64 m.int_regs i v) h
        (checked IsIntRegFile (check_reg_id i) _ (write64-IsIntRegFile m.int_regs i v h.0)))

  pub put_uint64-IsWellFormed : (i v : ℕ) → Keeps IsWellFormed (put_uint64 {B = B} i v)
  unfolding put_uint64 put_int_regs write_uint64
  put_uint64-IsWellFormed i v = Keeps-modify IsWellFormed _ (λ m h.
      with_int_regs m (write_uint64 m.int_regs i v) h
        (checked IsIntRegFile (check_reg_id i) _ (write64-IsIntRegFile m.int_regs i v h.0)))

  pub put_fp32-IsWellFormed : (i v : ℕ) → Keeps IsWellFormed (put_fp32 {B = B} i v)
  unfolding put_fp32 FpRegFile.write_uint32
  put_fp32-IsWellFormed i v = Keeps-modify IsWellFormed _ (λ m h.
      with_fp_regs m (FpRegFile.write_uint32 m.fp_regs i v) h (
        checked IsFpRegFile (check_reg_id i) _
          (record { words = λ j. ground (arith, h.1.words j) })))

  pub put_fp64-IsWellFormed : (i v : ℕ) → Keeps IsWellFormed (put_fp64 {B = B} i v)
  unfolding put_fp64 FpRegFile.write_uint64
  put_fp64-IsWellFormed i v = Keeps-modify IsWellFormed _ (λ m h.
      with_fp_regs m (FpRegFile.write_uint64 m.fp_regs i v) h (
        checked IsFpRegFile (check_reg_id i) _
          (record { words = λ j. ground (arith, h.1.words j) })))
