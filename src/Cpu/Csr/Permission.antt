-- ===== src/Cpu/Csr/Permission.antt =====
-- Who may access which register: the decision of `CheckTrap` against the rules of the privileged
-- architecture.
use rafi_1st.Base.{
  ℕ, ◌/◌, ◌%◌, ◌≤◌, ◌<◌, ◌≡◌, ◌≢◌, sym, ◌∙◌, ◌↔◌, ◌⊎◌, inl, inr, Bool, true, false, ◌&&◌, ◌||◌,
  arith, if◌then◌else◌, Bool-cases, le→leb, Option, none, some, Result, ok,
}
use rafi_1st.Base.Bits.{test_bit}
use rafi_1st.BitField.Bit.{get_member-bit}
use rafi_1st.RvTypes.{supervisor, reserved, priv_code}
use rafi_1st.RvCsr.Addr
use rafi_1st.Cpu.Trap.{Trap, make_illegal_instruction_exception}
use rafi_1st.Cpu.Csr.{Csr}
use rafi_1st.Cpu.Csr.Counters.{
  IsCounterAddr, IsCounterOpen, is_performance_counter_iff, counter_closed_iff,
}
use native.Mathlib.Nat.{mod-lt}
use rafi_1st.Cpu.Csr.Access.{
  is_performance_counter, counter_closed, counter_refused, check_counters, check_time,
  get_performance_counter_index, refused_by_mode, check_trap,
}

-- The lowest level that may access a register, and the index of a performance counter.
abbrev pub required_level : ℕ → ℕ
required_level addr = addr / 256 % 4

abbrev pub counter_index : ℕ → ℕ
counter_index addr = addr % 32

-- The rules: the level is high enough and not the reserved one, a read-only register is not
-- written, a supervisor under TVM keeps off satp, a performance counter is opened to the level, by
-- mcounteren for supervisor mode and by both mcounteren and scounteren for user mode, and the
-- register is not `time`.
pub record IsPermitted (c : Csr) (addr : ℕ) (write : Bool) : Type 0 where
  pub level : required_level addr ≤ priv_code c.priv
  pub not_reserved : required_level addr ≢ 2
  pub not_read_only : write ≡ true → addr / 1024 ≢ 3
  pub satp_open : addr ≡ Addr.satp → c.priv ≡ supervisor → test_bit c.status 20 ≡ false
  pub counter_open : IsCounterAddr addr → IsCounterOpen c c.priv (counter_index addr)
  pub not_time : addr ≢ Addr.time

-- On a performance counter the index is found, and is in range.
counter_refused_lem :
    (c : Csr) (addr : ℕ)
    → is_performance_counter addr ≡ true
    → counter_refused c addr ≡ ok (counter_closed c c.priv (counter_index addr))
unfolding counter_refused
counter_refused_lem c addr h = rw (index_lem addr h, le→leb (addr % 32) 32 (omega arith))
  where
    index_lem :
        (a : ℕ)
        → is_performance_counter a ≡ true
        → get_performance_counter_index a ≡ ok (counter_index a)
    index_lem a e = unfold get_performance_counter_index in ground arith

check_counters_lem :
    (c : Csr) (addr pc insn : ℕ)
    → check_counters c addr pc insn
      ≡ ok (
          if is_performance_counter addr && counter_closed c c.priv (counter_index addr)
          then some (make_illegal_instruction_exception pc insn)
          else check_time addr pc)
check_counters_lem c addr pc insn = elim (Bool-cases (is_performance_counter addr)) [
  | inl counter ↦ unfold check_counters in rw (counter, counter_refused_lem c addr counter)
  | inr other ↦ unfold check_counters in rw other
]

-- `CheckTrap` never throws on a 12-bit address.
check_trap_lem :
    (c : Csr) (addr : ℕ) (write : Bool) (pc insn : ℕ)
    → addr < 4096
    → check_trap c addr write pc insn
      ≡ ok (
          if refused_by_mode c addr write
            || is_performance_counter addr && counter_closed c c.priv (counter_index addr)
          then some (make_illegal_instruction_exception pc insn)
          else check_time addr pc)
check_trap_lem c addr write pc insn small = elim (Bool-cases (refused_by_mode c addr write)) [
  | inl refused ↦ unfold check_trap in rw (le→leb addr 4096 (omega arith), refused)
  | inr passed ↦
      unfold check_trap in
      rw (le→leb addr 4096 (omega arith), passed, check_counters_lem c addr pc insn)
]

-- The tests of the level alone.
mode_iff :
    (c : Csr) (addr : ℕ) (write : Bool)
    → c.priv ≢ reserved
    → (refused_by_mode c addr write ≡ false) ↔ (
        (required_level addr ≤ priv_code c.priv)
        × (required_level addr ≢ 2)
        × (write ≡ true → addr / 1024 ≢ 3)
        × (addr ≡ Addr.satp → c.priv ≡ supervisor → test_bit c.status 20 ≡ false))
unfolding refused_by_mode
mode_iff c addr write real = rw (get_member-bit c.status 20) (ground (arith, real))

-- The three tests together, for any outcome of the first two.
verdict : Bool → Bool → Bool → ℕ → ℕ → ℕ → Result (Option Trap)
verdict refused counter closed addr pc insn = ok (
    if refused || counter && closed
    then some (make_illegal_instruction_exception pc insn)
    else check_time addr pc)

verdict_iff :
    (refused counter closed : Bool) (addr pc insn : ℕ)
    → (verdict refused counter closed addr pc insn ≡ ok none)
      ↔ ((refused ≡ false) × (counter ≡ true → closed ≡ false) × (addr ≢ Addr.time))
unfolding verdict check_time
verdict_iff true counter closed addr pc insn = ground arith
verdict_iff false true true addr pc insn = ground arith
verdict_iff false true false addr pc insn = ground arith
verdict_iff false false closed addr pc insn = ground arith

verdict_refusal :
    (refused counter closed : Bool) (addr pc insn : ℕ)
    → let v = verdict refused counter closed addr pc insn in
      (v ≡ ok none)
      ⊎ ((v ≡ ok (some (make_illegal_instruction_exception pc insn)))
          ⊎ ((addr ≡ Addr.time) × (v ≡ ok (some (make_illegal_instruction_exception pc 0)))))
unfolding verdict check_time
verdict_refusal refused counter closed addr pc insn = ground arith

-- `CheckTrap` lets an access through exactly when the rules permit it.
pub check_trap-none_iff :
    (c : Csr) (addr : ℕ) (write : Bool) (pc insn : ℕ)
    → addr < 4096
    → c.priv ≢ reserved
    → (check_trap c addr write pc insn ≡ ok none) ↔ IsPermitted c addr write
unfolding verdict
check_trap-none_iff c addr write pc insn small real =
    let closed = counter_closed c c.priv (counter_index addr) in
    let by_tests =
      verdict_iff (refused_by_mode c addr write) (is_performance_counter addr) closed addr pc
        insn in
    let by_mode = mode_iff c addr write real in
    let by_addr = is_performance_counter_iff addr in
    let by_enable =
      counter_closed_iff c c.priv (counter_index addr) (mod-lt addr {m = 32} (omega arith)) in
    let decided = check_trap_lem c addr write pc insn small in
    (
      (λ e.
          let tests = by_tests.0 (sym decided ∙ e) in
          let mode = by_mode.0 tests.0 in
          record {
            level = mode.0;
            not_reserved = mode.1;
            not_read_only = mode.2;
            satp_open = mode.3;
            counter_open = λ a. by_enable.0 (tests.1 (by_addr.1 a));
            not_time = tests.2;
          }),
      (λ p.
          decided
          ∙ by_tests.1 (
            by_mode.1 (p.level, p.not_reserved, p.not_read_only, p.satp_open),
            (λ a. by_enable.1 (p.counter_open (by_addr.0 a))),
            p.not_time,
          )),
    )

-- An access that is not let through raises an illegal-instruction exception at the pc of the
-- instruction, with the instruction as its trap value, or with 0 for `time`.
pub check_trap_refusal :
    (c : Csr) (addr : ℕ) (write : Bool) (pc insn : ℕ)
    → addr < 4096
    → (check_trap c addr write pc insn ≡ ok none)
      ⊎ ((check_trap c addr write pc insn ≡ ok (some (make_illegal_instruction_exception pc insn)))
          ⊎ ((addr ≡ Addr.time)
              × (check_trap c addr write pc insn
                  ≡ ok (some (make_illegal_instruction_exception pc 0)))))
unfolding verdict
check_trap_refusal c addr write pc insn small = rw (check_trap_lem c addr write pc insn small) (
    verdict_refusal (refused_by_mode c addr write) (is_performance_counter addr)
      (counter_closed c c.priv (counter_index addr)) addr pc insn)
