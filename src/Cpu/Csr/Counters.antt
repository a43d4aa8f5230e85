-- ===== src/Cpu/Csr/Counters.antt =====
-- Which performance counters mcounteren and scounteren open: the masks of
-- src/bin/rafi-emu/cpu/Csr.cpp, `CheckTrap`, on the bits of the registers.
use rafi_1st.Base.{
  ℕ, ◌-◌, ◌*◌, ◌%◌, ◌^◌, ◌≤◌, ◌<◌, ◌≡◌, ap, ◌∙◌, ◌⊎◌, inl, inr, Bool, true, false, not, ◌&&◌, ◌||◌,
  ltb, leb, ◌==◌, ==_iff, bit_and, arith, if◌then◌else◌, Bool-cases, ◌↔◌,
}
use rafi_1st.Base.Bits.{
  test_bit, test_bit-zero, test_bit-bit_and, test_bit-mod, test_bit-mul, test_bit-ones,
  test_bit_high, eq_of_bits, lt_of_bits, bit_and-two_pow,
}
use native.Mathlib.Nat.{mod-eq_of_lt, pow-le-pow_right}
use rafi_1st.RvTypes.{PrivilegeLevel, user, supervisor, reserved, machine}
use rafi_1st.Cpu.Csr.{Csr}
use rafi_1st.Cpu.Csr.Access.{counter_mask, counter_closed, is_performance_counter}

-- The addresses of the counters: cycle to hpmcounter31, and their high halves.
abbrev pub IsCounterAddr : ℕ → Type 0
IsCounterAddr addr = ((0xc00 ≤ addr) × (addr < 0xc20)) ⊎ ((0xc80 ≤ addr) × (addr < 0xca0))

-- Does the register open the counter? Its bit of that number must be set. For counter 31 any of the
-- bits 31 to 63 will do, since the mask of the code is sign-extended.
abbrev pub counter_enabled : ℕ → ℕ → Bool
counter_enabled register index =
    if index == 31 then leb (2 ^ 31) (register % 2 ^ 64) else test_bit register index

-- The levels that each register holds back
abbrev pub IsCounterOpen : Csr → PrivilegeLevel → ℕ → Type 0
IsCounterOpen c level index =
    ((level ≡ supervisor) ⊎ (level ≡ user) → counter_enabled c.machine_counter_enable index ≡ true)
    × (level ≡ user → counter_enabled c.supervisor_counter_enable index ≡ true)

pub is_performance_counter_iff :
    (addr : ℕ) → (is_performance_counter addr ≡ true) ↔ IsCounterAddr addr
is_performance_counter_iff addr = ground arith

-- The mask of counter 31, bit by bit
abbrev high_mask : ℕ
high_mask = (2 ^ 33 - 1) * 2 ^ 31

test_bit-high_mask : (i : ℕ) → test_bit high_mask i ≡ (leb 31 i && ltb i 64)
test_bit-high_mask i = test_bit-mul 31 (2 ^ 33 - 1) i ∙ ground (arith, test_bit-ones 33 (i - 31))

high_mask-cases : (v : ℕ) → (bit_and v high_mask == 0) ≡ not (leb (2 ^ 31) (v % 2 ^ 64))
high_mask-cases v = elim (Bool-cases (leb (2 ^ 31) (v % 2 ^ 64))) [
  | inl high ↦ ground (arith, low_of_zero)
  | inr low ↦ ground (arith, zero_of_low (ground arith))
]
  where
    low_of_zero : bit_and v high_mask ≡ 0 → v % 2 ^ 64 < 2 ^ 31
    low_of_zero e = lt_of_bits 31 (v % 2 ^ 64) λ i high. ground (
      arith,
      test_bit-mod 64 v i,
      test_bit-bit_and v high_mask i,
      test_bit-high_mask i,
      test_bit-zero i,
      ap (λ (t : ℕ). test_bit t i) e,
    )

    zero_of_low : v % 2 ^ 64 < 2 ^ 31 → bit_and v high_mask ≡ 0
    zero_of_low low = eq_of_bits (bit_and v high_mask) 0 λ i. ground (
      arith,
      test_bit-mod 64 v i,
      test_bit-bit_and v high_mask i,
      test_bit-high_mask i,
      test_bit-zero i,
      test_bit_high 31 (v % 2 ^ 64) i low,
    )

low_mask : (index : ℕ) → index < 31 → counter_mask index ≡ 2 ^ index
low_mask index low =
    let small : 2 ^ index ≤ 2 ^ 30 =
      pow-le-pow_right {n = 2} (omega arith) {i = index} {j = 30} (omega arith) in
    rw (mod-eq_of_lt {n = 2 ^ index} {m = 2 ^ 32} (omega (arith, small))) (ground (arith, small))

-- A register and the mask have no common bit exactly when the register does not open the counter.
mask_lem :
    (register index : ℕ)
    → index < 32
    → (bit_and register (counter_mask index) == 0) ≡ not (counter_enabled register index)
mask_lem register index small = elim (Bool-cases (index == 31)) [
  | inl top ↦ rw ((==_iff index 31).0 top) (high_mask-cases register)
  | inr low ↦
      rw (low_mask index (ground arith), low) (ground (arith, bit_and-two_pow register index))
]

supervisor_iff :
    (m s : Bool)
    → (not m ≡ false) ↔ (
        ((supervisor ≡ supervisor) ⊎ (supervisor ≡ user) → m ≡ true)
        × (supervisor ≡ user → s ≡ true))
supervisor_iff true s = ground arith
supervisor_iff false s = ground arith

user_iff :
    (m s : Bool)
    → ((not m || not s) ≡ false)
      ↔ (((user ≡ supervisor) ⊎ (user ≡ user) → m ≡ true) × (user ≡ user → s ≡ true))
user_iff true true = ground arith
user_iff true false = ground arith
user_iff false s = ground arith

pub counter_closed_iff :
    (c : Csr) (level : PrivilegeLevel) (index : ℕ)
    → index < 32
    → (counter_closed c level index ≡ false) ↔ IsCounterOpen c level index
counter_closed_iff c supervisor index small = rw (mask_lem c.machine_counter_enable index small) (
    supervisor_iff (counter_enabled c.machine_counter_enable index)
      (counter_enabled c.supervisor_counter_enable index))
counter_closed_iff c user index small =
    rw
      (
        mask_lem c.machine_counter_enable index small,
        mask_lem c.supervisor_counter_enable index small,
      )
      (user_iff (counter_enabled c.machine_counter_enable index)
        (counter_enabled c.supervisor_counter_enable index))
counter_closed_iff c reserved index small = ground arith
counter_closed_iff c machine index small = ground arith
