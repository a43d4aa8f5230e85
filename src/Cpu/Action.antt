-- ===== src/Cpu/Action.antt =====
-- Code that uses the bus and can return a trap: the result type `std::optional<Trap>` with
-- `RAFI_RETURN_IF_TRAP` (src/bin/rafi-emu/cpu/Trap.h), and the exceptions of the macros.
pub mod Laws
pub mod Follows
use rafi_1st.Base.{Option, none, some, Fault, Result, ok, throw}
use rafi_1st.Cpu.Trap.{Trap}

pub data Outcome {ℓ} (A : Type ℓ) : Type ℓ where
  value : A → Outcome A
  trapped : Trap → Outcome A

-- Code over a state `S` that ends in a value, a trap or an exception
abbrev pub Action : Type 0 → Type 0 → Type 0
Action S A = S → Result (Outcome A × S)

abbrev pub continue :
    {S A B : Type 0} → Result (Outcome A × S) → (A → Action S B) → Result (Outcome B × S)
continue (ok (value a, s)) f = f a s
continue (ok (trapped t, s)) f = ok (trapped t, s)
continue (throw e) f = throw e

infixl 5 ◌>>=◌ ◌>>◌
abbrev pub ◌>>=◌ : {S A B : Type 0} → Action S A → (A → Action S B) → Action S B
m >>= f = λ s. continue (m s) f

abbrev pub ◌>>◌ : {S B : Type 0} → Action S (Unit {0}) → Action S B → Action S B
m >> k = m >>= λ _. k

abbrev pub return : {S A : Type 0} → A → Action S A
return a = λ s. ok (value a, s)

abbrev pub return_trap : {S A : Type 0} → Trap → Action S A
return_trap t = λ s. ok (trapped t, s)

abbrev pub fail : {S A : Type 0} → Fault → Action S A
fail e = λ s. throw e

-- RAFI_RETURN_IF_TRAP
abbrev pub return_if_trap : {S : Type 0} → Option Trap → Action S (Unit {0})
return_if_trap none = return tt
return_if_trap (some t) = return_trap t

abbrev pub read_result : {S A : Type 0} → Result (A × S) → Result (Outcome A × S)
read_result (ok (a, s)) = ok (value a, s)
read_result (throw e) = throw e

abbrev pub write_result : {S : Type 0} → Result S → Result (Outcome (Unit {0}) × S)
write_result (ok s) = ok (value tt, s)
write_result (throw e) = throw e

-- A read and a write of the bus
abbrev pub of_read : {S A : Type 0} → (S → Result (A × S)) → Action S A
of_read read = λ s. read_result (read s)

abbrev pub of_write : {S : Type 0} → (S → Result S) → Action S (Unit {0})
of_write write = λ s. write_result (write s)
