-- ===== src/Cpu/Executor/Atomic/Reservation.antt =====
-- The reservation of LR and SC in src/bin/rafi-emu/cpu/Executor.cpp: what drops it, and what a
-- store conditional does without it.
use rafi_1st.Base
use rafi_1st.Base.{
  ℕ, ◌≡◌, refl, Bool, true, false, ◌&&◌, ◌==◌, ◌<◌, leb, ltb, arith, if◌then◌else◌, subst, Result,
  ok, throw,
}
use rafi_1st.Decoder.Ops
use rafi_1st.Decoder.Ops.{Op, OpCode, lr_w, lr_d, sc_w, sc_d, operand_r, rv64a}
use rafi_1st.Cpu.AtomicManager.{cancel}
use rafi_1st.Cpu.IntRegFile.RoundTrip.{in_range}
use rafi_1st.Cpu.IntRegFile.{IntRegFile, read_uint32, read_uint64, write_uint64, write64}
use rafi_1st.Cpu.MemoryAccessUnit.{MemoryAccessUnit}
use rafi_1st.Cpu.MemoryAccessUnit.Access.{Traced}
use rafi_1st.Cpu.Executor.Machine.{
  Environment, Machine, Execution, ◌>>=◌, then_run, raise, lift, gets, get_value, modify,
}
use rafi_1st.Cpu.Executor.Operands.{as_r}
use rafi_1st.Cpu.Executor.Steps.{
  get_uint32, get_uint64, cancel_reservation, put_int_regs, put_int64, put_uint64,
}
use rafi_1st.Cpu.Executor.MemorySteps.{
  after_load, unit_of, load_by, store_by, load32, load64, store32, store64,
}
use rafi_1st.Cpu.Executor.Keeps.{Keeps, Keeps-modify, After, Ends}
use rafi_1st.Cpu.Executor.Reads.{reads_rules}
use rafi_1st.Cpu.Executor.Atomic.{
  process_rv64a, dispatch_rv64a, process_rv64a_atomic32, process_rv64a_atomic64,
  process_rv64a_store32, process_rv64a_store64,
}

abbrev pub IsUnreserved : {B : Type 0} → Machine B → Type 0
IsUnreserved m = m.atomic.is_reserved ≡ false

abbrev pub is_load_reserved : OpCode → Bool
is_load_reserved lr_w = true
is_load_reserved lr_d = true
is_load_reserved _ = false

-- Every state in which the execution returns has `P`, wherever it starts.
pub record LeadsTo {B A : Type 0} (P : Machine B → Type 0) (x : Execution B A) : Type 0 where
  pub at : (m : Machine B) → After P (x m)

module _ {B A C : Type 0} {P : Machine B → Type 0} where
  last_leads :
      (r : Result (A × Machine B)) (f : A → Execution B C)
      → ((a : A) → LeadsTo P (f a))
      → After P (then_run r f)
  last_leads (ok (a, m)) f h = (h a).at m
  last_leads (throw e) f h = tt

  first_leads :
      (r : Result (A × Machine B)) (f : A → Execution B C)
      → After P r
      → ((a : A) → Keeps P (f a))
      → After P (then_run r f)
  first_leads (ok (a, m)) f h kept = (kept a).at m h
  first_leads (throw e) f h kept = tt

  by_last :
      (x : Execution B A) (f : A → Execution B C)
      → ((a : A) → LeadsTo P (f a))
      → LeadsTo P (x >>= f)
  unfolding ◌>>=◌
  by_last x f h = record { at = λ m. last_leads (x m) f h }

  by_first :
      (x : Execution B A) (f : A → Execution B C)
      → LeadsTo P x
      → ((a : A) → Keeps P (f a))
      → LeadsTo P (x >>= f)
  unfolding ◌>>=◌
  by_first x f h kept = record { at = λ m. first_leads (x m) f (h.at m) kept }

module _ {B : Type 0} where
  cancel-LeadsTo : LeadsTo IsUnreserved (cancel_reservation {B = B})
  unfolding cancel_reservation cancel
  cancel-LeadsTo = record { at = λ m. refl }

  error-LeadsTo :
      {A : Type 0} {P : Machine B → Type 0} (e : Base.Fault) → LeadsTo P (raise {A = A} e)
  unfolding raise
  error-LeadsTo e = record { at = λ m. tt }

  load-After :
      (m : Machine B) (r : Result (ℕ × Traced B))
      → IsUnreserved m
      → After IsUnreserved (after_load m r)
  load-After m (ok (v, t)) h = h
  load-After m (throw e) h = tt

  load_by-Keeps :
      (load : MemoryAccessUnit B → ℕ → Traced B → Result (ℕ × Traced B)) (e : Environment B)
      (addr : ℕ)
      → Keeps IsUnreserved (load_by load e addr)
  unfolding load_by
  load_by-Keeps load e addr = record {
    at = λ m h. load-After m (load (unit_of e m) addr m.memory) h;
  }

  store-Ends :
      (m : Machine B) (r : Result (Traced B))
      → IsUnreserved m
      → Ends IsUnreserved (Base.◌>>=◌ r (λ t. ok (record m { memory = t })))
  store-Ends m (ok t) h = h
  store-Ends m (throw e) h = tt

  store_by-Keeps :
      (store : MemoryAccessUnit B → ℕ → ℕ → Traced B → Result (Traced B)) (e : Environment B)
      (addr v : ℕ)
      → Keeps IsUnreserved (store_by store e addr v)
  unfolding store_by
  store_by-Keeps store e addr v =
      Keeps-modify IsUnreserved _ (λ m h. store-Ends m (store (unit_of e m) addr v m.memory) h)

  put-Ends :
      (m : Machine B) (r : Result IntRegFile)
      → IsUnreserved m
      → Ends IsUnreserved (Base.◌>>=◌ r (λ x. ok (record m { int_regs = x })))
  put-Ends m (ok x) h = h
  put-Ends m (throw e) h = tt

  put-Keeps : (f : IntRegFile → Result IntRegFile) → Keeps IsUnreserved (put_int_regs {B = B} f)
  unfolding put_int_regs
  put-Keeps f = Keeps-modify IsUnreserved _ (λ m h. put-Ends m (f m.int_regs) h)

  ruleset unreserved_rules = (reads_rules, load_by-Keeps, store_by-Keeps, put-Keeps)

  atomic32-LeadsTo :
      (e : Environment B) (op : Op) → LeadsTo IsUnreserved (process_rv64a_atomic32 e op)
  unfolding process_rv64a_atomic32 load32 store32 put_int64
  atomic32-LeadsTo e op = by_first _ _ cancel-LeadsTo (λ u. search unreserved_rules depth 60)

  atomic64-LeadsTo :
      (e : Environment B) (op : Op) → LeadsTo IsUnreserved (process_rv64a_atomic64 e op)
  unfolding process_rv64a_atomic64 load64 store64 put_uint64
  atomic64-LeadsTo e op = by_first _ _ cancel-LeadsTo (λ u. search unreserved_rules depth 60)

  store32-LeadsTo :
      (e : Environment B) (op : Op) → LeadsTo IsUnreserved (process_rv64a_store32 e op)
  unfolding process_rv64a_store32
  store32-LeadsTo e op = search (by_last, cancel-LeadsTo) depth 60

  store64-LeadsTo :
      (e : Environment B) (op : Op) → LeadsTo IsUnreserved (process_rv64a_store64 e op)
  unfolding process_rv64a_store64
  store64-LeadsTo e op = search (by_last, cancel-LeadsTo) depth 60

  dispatch-LeadsTo :
      (e : Environment B) (code : OpCode) (op : Op)
      → is_load_reserved code ≡ false
      → LeadsTo IsUnreserved (dispatch_rv64a e code op)
  unfolding dispatch_rv64a
  dispatch-LeadsTo e lr_w op h = cc
  dispatch-LeadsTo e lr_d op h = cc
  dispatch-LeadsTo e _ op h =
      search (atomic32-LeadsTo, atomic64-LeadsTo, store32-LeadsTo, store64-LeadsTo, error-LeadsTo)

  abbrev pub failed : Machine B → ℕ → Machine B
  failed m rd = record m { int_regs = write64 m.int_regs rd 1; atomic = cancel m.atomic }

  module _ (e : Environment B) (m : Machine B) (unreserved : IsUnreserved m)
      (rd rs1 rs2 funct3 funct7 : ℕ) (rd_small : rd < 32) (rs1_small : rs1 < 32)
      (rs2_small : rs2 < 32) where
    store64-fails :
        process_rv64a_store64 e (Ops.op rv64a sc_d (operand_r rd rs1 rs2 funct3 funct7)) m
        ≡ ok (tt, failed m rd)
    unfolding process_rv64a_store64 as_r get_uint64 get_value lift gets read_uint64 ◌>>=◌ put_uint64
        put_int_regs modify write_uint64 cancel_reservation
    store64-fails =
        simp
          (
            (in_range rd rd_small).0,
            (in_range rd rd_small).1,
            (in_range rs1 rs1_small).0,
            (in_range rs1 rs1_small).1,
            (in_range rs2 rs2_small).0,
            (in_range rs2 rs2_small).1,
            unreserved,
          )
          refl

    store32-fails :
        process_rv64a_store32 e (Ops.op rv64a sc_w (operand_r rd rs1 rs2 funct3 funct7)) m
        ≡ ok (tt, failed m rd)
    unfolding process_rv64a_store32 as_r get_uint64 get_uint32 get_value lift gets read_uint64
        read_uint32 ◌>>=◌ put_uint64 put_int_regs modify write_uint64 cancel_reservation
    store32-fails =
        simp
          (
            (in_range rd rd_small).0,
            (in_range rd rd_small).1,
            (in_range rs1 rs1_small).0,
            (in_range rs1 rs1_small).1,
            (in_range rs2 rs2_small).0,
            (in_range rs2 rs2_small).1,
            unreserved,
          )
          refl

-- After any atomic instruction of RV64A that returns and is not a load-reserved, a store
-- conditional of either width fails, whatever its address: it leaves the memory and the bus as they
-- are, writes 1 to its destination, and there is no reservation after it either.
pub process_rv64a-store_conditional :
    {B : Type 0} (e : Environment B) (op : Op) (m m' : Machine B) (u : Unit {0})
    (rd rs1 rs2 funct3 funct7 : ℕ)
    → is_load_reserved op.op_code ≡ false
    → process_rv64a e op m ≡ ok (u, m')
    → rd < 32
    → rs1 < 32
    → rs2 < 32
    → (process_rv64a e (Ops.op rv64a sc_d (operand_r rd rs1 rs2 funct3 funct7)) m'
        ≡ ok (tt, failed m' rd))
      × (process_rv64a e (Ops.op rv64a sc_w (operand_r rd rs1 rs2 funct3 funct7)) m'
          ≡ ok (tt, failed m' rd))
      × IsUnreserved (failed m' rd)
unfolding process_rv64a dispatch_rv64a cancel
process_rv64a-store_conditional e op m m' u rd rs1 rs2 funct3 funct7 not_load returns rd_small
      rs1_small rs2_small =
    let unreserved : IsUnreserved m' =
      subst (After IsUnreserved) returns ((dispatch-LeadsTo e op.op_code op not_load).at m) in
    (
      store64-fails e m' unreserved rd rs1 rs2 funct3 funct7 rd_small rs1_small rs2_small,
      store32-fails e m' unreserved rd rs1 rs2 funct3 funct7 rd_small rs1_small rs2_small,
      refl,
    )
