-- ===== src/Cpu/Processor/Reach.antt =====
-- The states that cycles of src/bin/rafi-emu/cpu/Processor.cpp lead to, and what holds in all of
-- them.
use rafi_1st.Base
use rafi_1st.Base.{◌≡◌, refl, subst, Bool, Result, ok, throw}
use rafi_1st.Cpu.Csr
use rafi_1st.Cpu.Csr.{Csr}
use rafi_1st.Cpu.InterruptController
use rafi_1st.Cpu.InterruptController.{InterruptController}
use rafi_1st.Cpu.Executor.Machine.{Environment, Machine}
use rafi_1st.Cpu.Executor.Keeps.{After}
use rafi_1st.Cpu.Executor.Stable.{Stable}
use rafi_1st.Cpu.Executor.WellFormed.{IsWellFormed, IsWellFormed-Stable}
use rafi_1st.Cpu.Processor.{Processor, process_cycle, process_after_update, with_machine}
use rafi_1st.Cpu.Processor.Preserves.{process_after_update-Keeps}

-- One cycle that returns, whatever the timer answers.
pub data Cycle {B : Type 0} (e : Environment B) : Processor B → Processor B → Type 0 where
  cycle : {p p' : Processor B} → (timer : Bool) → process_cycle e timer p ≡ ok p' → Cycle e p p'

pub data Reach {B : Type 0} (e : Environment B) (p : Processor B) : Processor B → Type 0 where
  here : Reach e p p
  next : {q r : Processor B} → Reach e p q → Cycle e q r → Reach e p r

-- A predicate that `Update` and the counters keep too
pub record IsInvariant {B : Type 0} (P : Machine B → Type 0) : Type 1 where
  pub stable : Stable P
  pub counted : (m : Machine B) → P m → P (record m { csr = Csr.process_cycle m.csr })
  pub updated :
      (m : Machine B) (timer : Bool) (i : InterruptController) (r : Csr × InterruptController)
      → InterruptController.update m.csr timer i ≡ ok r
      → P m
      → P (record m { csr = r.0 })

abbrev Settled : {B : Type 0} → (Machine B → Type 0) → Result (Processor B) → Type 0
Settled P (ok p) = P p.machine
Settled P (throw fault) = Unit

module _ {B : Type 0} (e : Environment B) (P : Machine B → Type 0) (inv : IsInvariant P) where
  with_machine-Settled :
      (i : InterruptController) (r : Result (Unit {0} × Machine B))
      → After P r
      → Settled P (with_machine i r)
  with_machine-Settled i (ok (u, m)) h = h
  with_machine-Settled i (throw fault) h = tt

  module _ (timer : Bool) (p : Processor B) (holds : P p.machine) where
    updated-Settled :
        (r : Result (Csr × InterruptController))
        → InterruptController.update (Csr.process_cycle p.machine.csr) timer p.interrupt_controller
          ≡ r
        → Settled P (
            Base.◌>>=◌ r (λ x. with_machine x.1 (
              process_after_update e x.1 p.machine.csr.priv p.machine.csr.pc
                (record p.machine { csr = x.0 }))))
    updated-Settled (throw fault) eq = tt
    updated-Settled (ok x) eq = with_machine-Settled x.1 _ (
        (process_after_update-Keeps ⦃stable = inv.stable⦄ e x.1 p.machine.csr.priv
            p.machine.csr.pc).at
          (record p.machine { csr = x.0 })
          (inv.updated (record p.machine { csr = Csr.process_cycle p.machine.csr }) timer
            p.interrupt_controller x eq (inv.counted p.machine holds)))

    process_cycle-Settled : Settled P (process_cycle e timer p)
    unfolding process_cycle Csr.process_cycle
    process_cycle-Settled = updated-Settled _ refl

  pub Cycle-keeps : {p p' : Processor B} → Cycle e p p' → P p.machine → P p'.machine
  Cycle-keeps (cycle {p} timer eq) holds =
      subst (Settled P) eq (process_cycle-Settled timer p holds)

  -- An invariant of the basic steps, of the counters and of `Update` holds in every state that
  -- cycles lead to from a state where it holds.
  pub Reach-keeps : {p p' : Processor B} → Reach e p p' → P p.machine → P p'.machine
  Reach-keeps here holds = holds
  Reach-keeps (next r c) holds = Cycle-keeps c (Reach-keeps r holds)

registers-IsInvariant : {B : Type 0} → IsInvariant (IsWellFormed {B = B})
registers-IsInvariant = record {
  stable = IsWellFormed-Stable;
  counted = λ m h. h;
  updated = λ m timer i r eq h. h;
}

-- From registers that hold 64-bit words and an x0 of 0, any number of cycles leads to such
-- registers only: no instruction, trap or interrupt writes x0 or a wider word.
pub Reach-IsWellFormed :
    {B : Type 0} (e : Environment B) {p p' : Processor B}
    → Reach e p p'
    → IsWellFormed p.machine
    → IsWellFormed p'.machine
Reach-IsWellFormed e r h = Reach-keeps e IsWellFormed registers-IsInvariant r h
