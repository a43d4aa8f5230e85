-- ===== src/Cpu/Action/Laws.antt =====
-- When two pieces of code with traps and exceptions do the same, and when one does not trap.
use rafi_1st.Base.{◌≡◌, refl, Bool, true, false, if◌then◌else◌, Result, ok, throw}
use rafi_1st.Cpu.Action.{Outcome, value, trapped, Action, continue, ◌>>=◌}

continue-cong :
    {S A B : Type 0} (r : Result (Outcome A × S)) (f g : A → Action S B)
    → ((a : A) (s : S) → f a s ≡ g a s)
    → continue r f ≡ continue r g
continue-cong (ok (value a, s)) f g h = h a s
continue-cong (ok (trapped t, s)) f g h = refl
continue-cong (throw e) f g h = refl

pub >>=-cong :
    {S A B : Type 0} (m : Action S A) {f g : A → Action S B}
    → ((a : A) (s : S) → f a s ≡ g a s)
    → (s : S) → (m >>= f) s ≡ (m >>= g) s
>>=-cong m {f} {g} h s = continue-cong (m s) f g h

pub if-cong :
    {S A : Type 0} (b : Bool) (m n m' n' : Action S A) (s : S)
    → m s ≡ m' s
    → n s ≡ n' s
    → (if b then m else n) s ≡ (if b then m' else n') s
if-cong true m n m' n' s p q = p
if-cong false m n m' n' s p q = q
