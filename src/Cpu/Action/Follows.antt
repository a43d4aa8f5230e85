-- ===== src/Cpu/Action/Follows.antt =====
-- When code cannot trap because other code, run from the same state, did not.
use rafi_1st.Base.{
  ◌≡◌, refl, sym, subst, Bool, true, false, if◌then◌else◌, Option, none, some, Fault, Result, ok,
  throw,
}
use rafi_1st.Cpu.Trap.{Trap}
use rafi_1st.Cpu.Action.{
  Outcome, value, trapped, Action, continue, return_if_trap, of_read, of_write, read_result,
  write_result,
}

-- A value or an exception, not a trap
pub data NotTrapped {S A : Type 0} : Result (Outcome A × S) → Type 0 where
  by_value : (a : A) (s : S) → NotTrapped (ok (value a, s))
  by_fault : (e : Fault) → NotTrapped (throw e)

-- If the first ends in a value, the second does not trap.
abbrev pub Follows : {S A B : Type 0} → Result (Outcome A × S) → Result (Outcome B × S) → Type 0
Follows {S} {A} {B} x y = (a : A) (s : S) → x ≡ ok (value a, s) → NotTrapped y

pub Follows-any :
    {S A B : Type 0} (x : Result (Outcome A × S)) (y : Result (Outcome B × S))
    → NotTrapped y
    → Follows x y
Follows-any x y h a s e = h

-- A trap has no value.
pub Follows-trapped :
    {S A B : Type 0} (t : Trap) (s : S) (y : Result (Outcome B × S))
    → Follows {A = A} (ok (trapped t, s)) y
Follows-trapped t s y a s' e = cc

-- The same step first, then code that follows.
pub Follows-step :
    {S A B C : Type 0} (r : Result (Outcome C × S)) (f : C → Action S A) (g : C → Action S B)
    → ((c : C) (s : S) → Follows (f c s) (g c s))
    → Follows (continue r f) (continue r g)
Follows-step (ok (value c, s)) f g h = h c s
Follows-step (ok (trapped t, s)) f g h = Follows-trapped t s (ok (trapped t, s))
Follows-step (throw e) f g h = λ a s p. by_fault e

-- Two checks first, the second of which passes where the first does.
pub Follows-checked :
    {S A B : Type 0} (o o' : Option Trap) (f : Action S A) (g : Action S B) (s : S)
    → (o ≡ none → o' ≡ none)
    → Follows (f s) (g s)
    → Follows (continue (return_if_trap o s) (λ _. f)) (continue (return_if_trap o' s) (λ _. g))
Follows-checked none o' f g s pass h = λ a s' e.
    subst (λ (t : Option Trap). NotTrapped (continue (return_if_trap t s) (λ _. g)))
      (sym (pass refl)) (h a s' e)
Follows-checked (some t) o' f g s pass h =
    Follows-trapped t s (continue (return_if_trap o' s) (λ _. g))

-- The first is the check alone.
pub Follows-check :
    {S B : Type 0} (o o' : Option Trap) (g : Action S B) (s : S)
    → (o ≡ none → o' ≡ none)
    → NotTrapped (g s)
    → Follows (return_if_trap o s) (continue (return_if_trap o' s) (λ _. g))
Follows-check none o' g s pass h = λ a s' e.
    subst (λ (t : Option Trap). NotTrapped (continue (return_if_trap t s) (λ _. g)))
      (sym (pass refl)) h
Follows-check (some t) o' g s pass h = Follows-trapped t s (continue (return_if_trap o' s) (λ _. g))

pub Follows-if :
    {S A B : Type 0} (b : Bool) (m n : Action S A) (m' n' : Action S B) (s : S)
    → Follows (m s) (m' s)
    → Follows (n s) (n' s)
    → Follows ((if b then m else n) s) ((if b then m' else n') s)
Follows-if true m n m' n' s p q = p
Follows-if false m n m' n' s p q = q

pub NotTrapped-then :
    {S A B : Type 0} {r : Result (Outcome A × S)}
    → NotTrapped r
    → (f : A → Action S B) → ((a : A) (s : S) → NotTrapped (f a s))
    → NotTrapped (continue r f)
NotTrapped-then (by_value a s) f h = h a s
NotTrapped-then (by_fault e) f h = by_fault e

-- Reads and writes of the bus do not trap.
pub NotTrapped-read :
    {S A : Type 0} (read : S → Result (A × S)) (s : S) → NotTrapped (of_read read s)
NotTrapped-read {S} {A} read s = cases (read s)
  where
    cases : (r : Result (A × S)) → NotTrapped (read_result r)
    cases (ok (a, s')) = by_value a s'
    cases (throw e) = by_fault e

pub NotTrapped-write : {S : Type 0} (write : S → Result S) (s : S) → NotTrapped (of_write write s)
NotTrapped-write {S} write s = cases (write s)
  where
    cases : (r : Result S) → NotTrapped (write_result r)
    cases (ok s') = by_value tt s'
    cases (throw e) = by_fault e
