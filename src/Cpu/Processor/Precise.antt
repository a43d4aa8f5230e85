-- ===== src/Cpu/Processor/Precise.antt =====
-- Precise traps (src/bin/rafi-emu/cpu/Processor.cpp, Executor.cpp): an instruction that is refused
-- before it executes leaves the registers of the program as they are.
use rafi_1st.Base.{ℕ, ◌≡◌, ◌∙◌, refl, sym, ap, subst, Option, some, List, Result, ok, throw}
use rafi_1st.Trace.{Event}
use rafi_1st.Decoder.Ops.{Op}
use rafi_1st.Cpu.Trap.{Trap}
use rafi_1st.Cpu.Action
use rafi_1st.Cpu.Action.{value, trapped}
use rafi_1st.Cpu.Csr.{Csr}
use rafi_1st.Cpu.TrapProcessor.{process_exception}
use rafi_1st.Cpu.MemoryAccessUnit.Check.{check_trap}
use rafi_1st.Cpu.Executor.Machine.{Machine, Environment, Execution, ◌>>=◌, then_run, modify}
use rafi_1st.Cpu.Executor.MemorySteps.{
  check_access, after_check, unit_of, with_trap, raise_exception,
}
use rafi_1st.Cpu.Executor.Keeps.{After, Ends, end-After}
use rafi_1st.Cpu.Executor.Stable.{Checked}
use rafi_1st.Cpu.Executor.Run.{pre_check_trap}
use rafi_1st.Cpu.Executor.Preserves.Run.{pre_check_trap-Keeps}
use rafi_1st.Cpu.Processor.{execute, unless_exception}

module _ {B : Type 0} where
  -- The state of the bus can differ, nothing else.
  pub record IsSameButBus (m m' : Machine B) : Type 0 where
    pub atomic : m'.atomic ≡ m.atomic
    pub csr : m'.csr ≡ m.csr
    pub int_regs : m'.int_regs ≡ m.int_regs
    pub fp_regs : m'.fp_regs ≡ m.fp_regs
    pub float : m'.float ≡ m.float
    pub events : m'.memory.1 ≡ m.memory.1

  -- What the trap processor's result leaves alone, and what it sets
  abbrev pub IsTrapped : Machine B → Machine B → Result (Csr × List Event) → Type 0
  IsTrapped m m' result =
      (m'.atomic ≡ m.atomic)
      × (m'.int_regs ≡ m.int_regs)
      × (m'.fp_regs ≡ m.fp_regs)
      × (m'.float ≡ m.float)
      × (result ≡ ok (m'.csr, m'.memory.1))

  checked_from :
      (m n : Machine B) (r : Result (Action.Outcome (Unit {0}) × B))
      → IsSameButBus m n
      → After (IsSameButBus m) (after_check n r)
  checked_from m n (ok (value u, b)) h = record {
    atomic = h.atomic;
    csr = h.csr;
    int_regs = h.int_regs;
    fp_regs = h.fp_regs;
    float = h.float;
    events = h.events;
  }
  checked_from m n (ok (trapped t, b)) h = record {
    atomic = h.atomic;
    csr = h.csr;
    int_regs = h.int_regs;
    fp_regs = h.fp_regs;
    float = h.float;
    events = h.events;
  }
  checked_from m n (throw e) h = tt

  IsSameButBus-Checked : (m : Machine B) → Checked (IsSameButBus m)
  unfolding check_access
  IsSameButBus-Checked m = record {
    by_check_access = λ e access_type pc addr. record {
      at = λ n h. checked_from m n (check_trap (unit_of e n) access_type pc addr n.memory.0) h;
    };
  }

  pub pre_check_trap-IsSameButBus :
      (e : Environment B) (op : Op) (pc insn : ℕ) (m m' : Machine B) (t : Option Trap)
      → pre_check_trap e op pc insn m ≡ ok (t, m')
      → IsSameButBus m m'
  pre_check_trap-IsSameButBus e op pc insn m m' t eq =
      let start : IsSameButBus m m = record {
        atomic = refl;
        csr = refl;
        int_regs = refl;
        fp_regs = refl;
        float = refl;
        events = refl;
      } in
      subst (After (IsSameButBus m)) eq
        ((pre_check_trap-Keeps ⦃checked = IsSameButBus-Checked m⦄ e op pc insn).at m start)

  trap-Ends :
      (m : Machine B) (r : Result (Csr × List Event))
      → Ends (λ m'. IsTrapped m m' r) (with_trap m r)
  trap-Ends m (ok x) = (refl, refl, refl, refl, refl)
  trap-Ends m (throw e) = tt

  raise_exception-IsTrapped :
      (e : Environment B) (t : Trap) (m : Machine B)
      → After
          (λ m'. IsTrapped m m' (process_exception e.xlen m.csr m.memory.1 t))
          (raise_exception e t m)
  unfolding raise_exception modify
  raise_exception-IsTrapped e t m =
      let r : Result (Csr × List Event) = process_exception e.xlen m.csr m.memory.1 t in
      end-After (λ m'. IsTrapped m m' r) (with_trap m r) (trap-Ends m r)

  bind-ok :
      {A C : Type 0} (x : Execution B A) (f : A → Execution B C) (m m' : Machine B) (a : A)
      → x m ≡ ok (a, m')
      → (x >>= f) m ≡ f a m'
  unfolding ◌>>=◌
  bind-ok x f m m' a eq = ap (λ r. then_run r f) eq

  refused_before :
      (e : Environment B) (op : Op) (pc insn : ℕ) (m m' : Machine B) (t : Trap)
      → pre_check_trap e op pc insn m ≡ ok (some t, m')
      → execute e op pc insn m ≡ raise_exception e t m'
  unfolding execute unless_exception
  refused_before e op pc insn m m' t eq = bind-ok (pre_check_trap e op pc insn) _ m m' (some t) eq

  from_same :
      (e : Environment B) (t : Trap) (m n m' : Machine B)
      → IsSameButBus m n
      → IsTrapped n m' (process_exception e.xlen n.csr n.memory.1 t)
      → IsTrapped m m' (process_exception e.xlen m.csr m.memory.1 t)
  from_same e t m n m' same (atomic, int_regs, fp_regs, float, trap) = (
    atomic ∙ same.atomic,
    int_regs ∙ same.int_regs,
    fp_regs ∙ same.fp_regs,
    float ∙ same.float,
    ap (λ c. process_exception e.xlen c m.memory.1 t) (sym same.csr)
        ∙ ap (λ events. process_exception e.xlen n.csr events t) (sym same.events)
        ∙ trap,
  )

  -- If the check before an instruction finds a trap, the instruction leaves the integer and
  -- floating-point registers, the reservation and the state of SoftFloat as they were, and the
  -- control and status registers and the event list are those that the trap processor makes of this
  -- trap.
  pub execute-IsTrapped :
      (e : Environment B) (op : Op) (pc insn : ℕ) (t : Trap) (m n m' : Machine B) (u : Unit {0})
      → pre_check_trap e op pc insn m ≡ ok (some t, n)
      → execute e op pc insn m ≡ ok (u, m')
      → IsTrapped m m' (process_exception e.xlen m.csr m.memory.1 t)
  execute-IsTrapped e op pc insn t m n m' u refused returns =
      let same : IsSameButBus m n = pre_check_trap-IsSameButBus e op pc insn m n (some t) refused in
      let raised : raise_exception e t n ≡ ok (u, m') =
        cc (refused_before e op pc insn m n t refused, returns) in
      from_same e t m n m' same (
        subst (After (λ x. IsTrapped n x (process_exception e.xlen n.csr n.memory.1 t))) raised
          (raise_exception-IsTrapped e t n))
