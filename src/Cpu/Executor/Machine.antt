-- ===== src/Cpu/Executor/Machine.antt =====
-- src/bin/rafi-emu/cpu/Executor.h: what an executor works on. Its pointers are the fields of one
-- state; every method is an `Execution`, which returns or throws.
use rafi_1st.Base.{ℕ, Fault, Result, ok, throw, exited}
use rafi_1st.RvTypes.{SupportedXlen}
use rafi_1st.Emu.Interface.{Bus}
use rafi_1st.Fp.SoftFloat.{FloatState, SoftFloat}
use rafi_1st.Cpu.Csr.{Csr}
use rafi_1st.Cpu.AtomicManager.{AtomicManager}
use rafi_1st.Cpu.IntRegFile.{IntRegFile}
use rafi_1st.Cpu.FpRegFile.{FpRegFile}
use rafi_1st.Cpu.MemoryAccessUnit.Access.{Traced}

-- The products of Boost's 128-bit integers, shifted right by 64: of two `int64_t`, of an `int64_t`
-- and a `uint64_t`, and of two `uint64_t`.
pub record WideMultiply : Type 0 where
  pub high_signed : ℕ → ℕ → ℕ
  pub high_mixed : ℕ → ℕ → ℕ
  pub high_unsigned : ℕ → ℕ → ℕ

-- What does not change: the width that the processor was built with, the bus, the products and the
-- functions of SoftFloat.
pub record Environment (B : Type 0) : Type 0 where
  pub xlen : SupportedXlen
  pub bus : Bus B
  pub multiply : WideMultiply
  pub softfloat : SoftFloat

-- m_pAtomicManager, m_pCsr, m_pIntRegFile, m_pFpRegFile, and the bus and the event list that the
-- memory access unit and the trap processor share, and the globals of SoftFloat
pub record Machine (B : Type 0) : Type 0 where
  pub atomic : AtomicManager
  pub csr : Csr
  pub int_regs : IntRegFile
  pub fp_regs : FpRegFile
  pub memory : Traced B
  pub float : FloatState

abbrev pub Execution : Type 0 → Type 0 → Type 0
Execution B A = Machine B → Result (A × Machine B)

abbrev pub then_run :
    {B A C : Type 0} → Result (A × Machine B) → (A → Execution B C) → Result (C × Machine B)
then_run (ok (a, m)) f = f a m
then_run (throw e) f = throw e

infixl 5 ◌>>=◌ ◌>>◌
unfoldable pub ◌>>=◌ : {B A C : Type 0} → Execution B A → (A → Execution B C) → Execution B C
◌>>=◌ x f m = then_run (x m) f

abbrev pub ◌>>◌ : {B C : Type 0} → Execution B (Unit {0}) → Execution B C → Execution B C
x >> y = x >>= λ _. y

unfoldable pub pure : {B A : Type 0} → A → Execution B A
pure a m = ok (a, m)

unfoldable pub raise : {B A : Type 0} → Fault → Execution B A
raise e m = throw e

-- A result that needs no state
unfoldable pub lift : {B A : Type 0} → Result A → Execution B A
lift (ok a) m = ok (a, m)
lift (throw e) m = throw e

-- Read the state; change it.
unfoldable pub gets : {B A : Type 0} → (Machine B → Result A) → Execution B A
unfolding lift
gets f m = lift (f m) m

unfoldable pub get_value : {B A : Type 0} → (Machine B → A) → Execution B A
get_value f m = ok (f m, m)

-- Executor::Error
abbrev pub error : {B A : Type 0} → Execution B A
error = raise exited

unfoldable pub modify : {B : Type 0} → (Machine B → Result (Machine B)) → Execution B (Unit {0})
modify f m = elim (f m) [ ok m' ↦ ok (tt, m') | throw e ↦ throw e ]
