-- ===== src/Cpu/Executor/Keeps.antt =====
-- Invariants of executions: a rule for each way to build one.
use rafi_1st.Base.{Bool, true, false, if◌then◌else◌, Fault, Result, ok, throw}
use rafi_1st.Cpu.Executor.Machine.{
  Machine, Execution, ◌>>=◌, pure, raise, lift, gets, get_value, modify, then_run,
}

-- What an execution returns in is a state with `P`; if it throws, there is nothing to say.
abbrev pub After : {B A : Type 0} → (Machine B → Type 0) → Result (A × Machine B) → Type 0
After P (ok (a, m)) = P m
After P (throw e) = Unit

-- Every state in which the execution returns, from a state with `P`, has `P`.
pub record Keeps {B A : Type 0} (P : Machine B → Type 0) (x : Execution B A) : Type 0 where
  pub at : (m : Machine B) → P m → After P (x m)

lift-After :
    {B A : Type 0} (P : Machine B → Type 0) (r : Result A) (m : Machine B)
    → P m
    → After P (lift r m)
unfolding lift
lift-After P (ok a) m h = h
lift-After P (throw e) m h = tt

module _ {B A : Type 0} {P : Machine B → Type 0} where
  pub Keeps-pure : (a : A) → Keeps P (pure a)
  unfolding pure
  Keeps-pure a = record { at = λ m h. h }

  pub Keeps-raise : (e : Fault) → Keeps P (raise {A = A} e)
  unfolding raise
  Keeps-raise e = record { at = λ m h. tt }

  pub Keeps-lift : (r : Result A) → Keeps P (lift r)
  Keeps-lift r = record { at = lift-After P r }

  pub Keeps-gets : (f : Machine B → Result A) → Keeps P (gets f)
  unfolding gets
  Keeps-gets f = record { at = λ m h. lift-After P (f m) m h }

  pub Keeps-get_value : (f : Machine B → A) → Keeps P (get_value f)
  unfolding get_value
  Keeps-get_value f = record { at = λ m h. h }

  pub Keeps-if :
      (b : Bool) (x y : Execution B A) → Keeps P x → Keeps P y → Keeps P (if b then x else y)
  Keeps-if true x y kx ky = kx
  Keeps-if false x y kx ky = ky

module _ {B A C : Type 0} {P : Machine B → Type 0} where
  bind-After :
      (r : Result (A × Machine B)) (f : A → Execution B C)
      → After P r
      → ((a : A) → Keeps P (f a))
      → After P (then_run r f)
  bind-After (ok (a, m)) f h kf = (kf a).at m h
  bind-After (throw e) f h kf = tt

  pub Keeps-bind :
      (x : Execution B A) (f : A → Execution B C)
      → Keeps P x
      → ((a : A) → Keeps P (f a))
      → Keeps P (x >>= f)
  unfolding ◌>>=◌
  Keeps-bind x f kx kf = record { at = λ m h. bind-After (x m) f (kx.at m h) kf }

-- What a change of the state ends in has `P`, if it does not throw.
abbrev pub Ends : {B : Type 0} → (Machine B → Type 0) → Result (Machine B) → Type 0
Ends P (ok m) = P m
Ends P (throw e) = Unit

module _ {B : Type 0} (P : Machine B → Type 0) where
  pub end-After :
      (r : Result (Machine B))
      → Ends P r
      → After P (elim r as (λ _. Result (Unit {0} × Machine B)) [
        | ok m' ↦ ok (tt, m')
        | throw e ↦ throw e
      ])
  end-After (ok m') h = h
  end-After (throw e) h = tt

  pub Keeps-modify :
      (f : Machine B → Result (Machine B))
      → ((m : Machine B) → P m → Ends P (f m))
      → Keeps P (modify f)
  unfolding modify
  Keeps-modify f kf = record { at = λ m h. end-After (f m) (kf m h) }

pub ruleset keeps_rules =
    (Keeps-pure, Keeps-raise, Keeps-lift, Keeps-gets, Keeps-get_value, Keeps-if, Keeps-bind)
