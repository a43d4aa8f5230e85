-- ===== src/Cpu/Csr/Isolation.antt =====
-- What a register write below machine mode cannot reach.
use rafi_1st.Base.{
  ℕ, ◌/◌, ◌^◌, ◌≤◌, ◌<◌, ◌≡◌, ◌≢◌, refl, ap, ◌∙◌, sym, bit_and, Bool, true, false, arith, ◌==◌,
  if◌then◌else◌, AllCases-switch, ok, none, subst,
}
use rafi_1st.Base.Bits.{test_bit, test_bit-bit_and}
use rafi_1st.BitField.{set_with_mask}
use rafi_1st.BitField.Laws.{test_bit-set_with_mask}
use rafi_1st.RvTypes.{SupportedXlen, rv32, rv64, PrivilegeLevel, reserved, priv_code}
use rafi_1st.RvCsr.Addr
use rafi_1st.RvCsr.Ie
use rafi_1st.RvCsr.Ip
use rafi_1st.Cpu.Csr.{Csr, write_status}
use rafi_1st.Cpu.Csr.Access.{check_trap}
use rafi_1st.Cpu.Csr.Permission.{required_level, check_trap-none_iff}
use rafi_1st.Cpu.Csr.Read.{is_supervisor_mode_register, is_user_mode_register}
use rafi_1st.Cpu.Csr.Write.{
  supervisor_mode_cases, user_mode_cases, write_uint64, write_machine_mode_register,
  write_supervisor_mode_register, write_user_mode_register, write_user_counter,
}

-- The registers of machine mode, and the state of the processor outside the registers.
pub record MachineView : Type 0 where
  pub xlen : SupportedXlen
  pub isa : ℕ
  pub trap_vector : ℕ
  pub exception_delegation : ℕ
  pub interrupt_delegation : ℕ
  pub counter_enable : ℕ
  pub scratch : ℕ
  pub exception_pc : ℕ
  pub cause : ℕ
  pub trap_value : ℕ
  pub cycle : ℕ
  pub time : ℕ
  pub instret : ℕ
  pub pc : ℕ
  pub priv : PrivilegeLevel

abbrev pub machine_view : Csr → MachineView
machine_view c = record {
  xlen = c.xlen;
  isa = c.isa;
  trap_vector = c.machine_trap_vector;
  exception_delegation = c.machine_exception_delegation;
  interrupt_delegation = c.machine_interrupt_delegation;
  counter_enable = c.machine_counter_enable;
  scratch = c.machine_scratch;
  exception_pc = c.machine_exception_pc;
  cause = c.machine_cause;
  trap_value = c.machine_trap_value;
  cycle = c.cycle_counter;
  time = c.time_counter;
  instret = c.instruction_retired_counter;
  pc = c.pc;
  priv = c.priv;
}

-- The two words agree outside the mask.
abbrev pub AgreeOutside : ℕ → ℕ → ℕ → Type 0
AgreeOutside mask v x = (i : ℕ) → test_bit mask i ≡ false → test_bit x i ≡ test_bit v i

-- Nothing that belongs to machine mode differs, the status register apart.
abbrev pub SameMachineState : Csr → Csr → Type 0
SameMachineState c d =
    (machine_view d ≡ machine_view c)
    × AgreeOutside Ie.supervisor_mask c.interrupt_enable d.interrupt_enable
    × AgreeOutside Ip.supervisor_mask c.interrupt_pending d.interrupt_pending

-- A masked write stays inside any mask that holds its own.
AgreeOutside-set_with_mask :
    (v x k wide : ℕ)
    → v < 2 ^ 64
    → bit_and k wide ≡ k
    → AgreeOutside wide v (set_with_mask 64 v x k)
AgreeOutside-set_with_mask v x k wide small within i out =
    test_bit-set_with_mask 64 v x k i small
    ∙ ground (arith, ap (λ (t : ℕ). test_bit t i) within, test_bit-bit_and k wide i)

-- What a write to a register of the lower modes is shown to keep.
same : (c : Csr) → SameMachineState c c
same c = (refl, (λ i h. refl), λ i h. refl)

if_case {ℓ κ} :
    {A : Type ℓ} (P : A → Type κ) (b : Bool) {x y : A} → P x → P y → P (if b then x else y)
if_case P true p q = p
if_case P false p q = q

==-other : (a b : ℕ) → a ≢ b → (a == b) ≡ false
==-other a b h = ground arith

module _ (c : Csr) (value : ℕ) (ie_small : c.interrupt_enable < 2 ^ 64)
    (ip_small : c.interrupt_pending < 2 ^ 64) where
  enables :
      (mask : ℕ)
      → bit_and mask Ie.supervisor_mask ≡ mask
      → AgreeOutside Ie.supervisor_mask c.interrupt_enable
          (set_with_mask 64 c.interrupt_enable value mask)
  enables mask within =
      AgreeOutside-set_with_mask c.interrupt_enable value mask Ie.supervisor_mask ie_small within

  pendings :
      (mask : ℕ)
      → bit_and mask Ip.supervisor_mask ≡ mask
      → AgreeOutside Ip.supervisor_mask c.interrupt_pending
          (set_with_mask 64 c.interrupt_pending value mask)
  pendings mask within =
      AgreeOutside-set_with_mask c.interrupt_pending value mask Ip.supervisor_mask ip_small within

  supervisor_write : (addr : ℕ) → SameMachineState c (write_supervisor_mode_register c addr value)
  unfolding write_supervisor_mode_register write_status same
  supervisor_write addr =
      AllCases-switch (SameMachineState c) addr (supervisor_mode_cases c value) c
        (
          same c,
          (
            same c,
            (
              same c,
              (
                (refl, enables Ie.supervisor_mask refl, λ i h. refl),
                (
                  same c,
                  (
                    same c,
                    (
                      same c,
                      (
                        same c,
                        (
                          same c,
                          (
                            same c,
                            (
                              (
                                refl,
                                (λ i h. refl),
                                pendings (bit_and Ip.write_mask Ip.supervisor_mask) refl,
                              ),
                              (same c, tt),
                            ),
                          ),
                        ),
                      ),
                    ),
                  ),
                ),
              ),
            ),
          ),
        )
        (same c)

  user_write :
      (addr : ℕ)
      → SameMachineState c (write_user_counter c addr value c.xlen)
      → SameMachineState c (write_user_mode_register c addr value)
  unfolding write_user_mode_register write_status same
  user_write addr rest =
      AllCases-switch (SameMachineState c) addr (user_mode_cases c value)
        (write_user_counter c addr value c.xlen)
        (
          same c,
          (
            same c,
            (
              same c,
              (
                same c,
                (
                  (refl, enables Ie.user_mask refl, λ i h. refl),
                  (
                    same c,
                    (
                      same c,
                      (
                        same c,
                        (
                          same c,
                          (
                            same c,
                            (
                              (
                                refl,
                                (λ i h. refl),
                                pendings (bit_and Ip.write_mask Ip.user_mask) refl,
                              ),
                              tt,
                            ),
                          ),
                        ),
                      ),
                    ),
                  ),
                ),
              ),
            ),
          ),
        )
        rest

-- The counters of user mode lie among the read-only registers.
write_user_counter-below :
    (c : Csr) (addr value : ℕ) (xlen : SupportedXlen)
    → addr / 1024 ≢ 3
    → write_user_counter c addr value xlen ≡ c
unfolding write_user_counter
write_user_counter-below c addr value rv32 h = rw (
  ==-other addr Addr.cycle (omega arith),
  ==-other addr Addr.time (omega arith),
  ==-other addr Addr.instret (omega arith),
  ==-other addr Addr.cycleh (omega arith),
  ==-other addr Addr.timeh (omega arith),
  ==-other addr Addr.instreth (omega arith),
)
write_user_counter-below c addr value rv64 h = rw (
  ==-other addr Addr.cycle (omega arith),
  ==-other addr Addr.time (omega arith),
  ==-other addr Addr.instret (omega arith),
)

-- The route of a write at a low address outside the read-only registers.
write_uint64_low :
    (c : Csr) (addr value : ℕ)
    → required_level addr ≤ 1
    → addr / 1024 ≢ 3
    → c.interrupt_enable < 2 ^ 64
    → c.interrupt_pending < 2 ^ 64
    → SameMachineState c (write_uint64 c addr value)
unfolding write_uint64
write_uint64_low c addr value low no_counter ie_small ip_small =
    subst
      (λ (b : Bool). SameMachineState c (
        if b
        then write_machine_mode_register c addr value
        else if is_supervisor_mode_register addr
        then write_supervisor_mode_register c addr value
        else if is_user_mode_register addr
        then write_user_mode_register c addr value
        else c))
      (sym (==-other (required_level addr) 3 (omega arith)))
      (if_case (SameMachineState c) (is_supervisor_mode_register addr)
        (supervisor_write c value ie_small ip_small addr)
        (if_case (SameMachineState c) (is_user_mode_register addr)
          (user_write c value ie_small ip_small addr (
            subst (SameMachineState c)
              (sym (write_user_counter-below c addr value c.xlen no_counter)) (same c)))
          (same c)))

-- A write that the check permits in user or supervisor mode leaves every register of machine mode
-- as it is, apart from the status register, and of the interrupt registers the bits outside the
-- masks of supervisor mode.
pub write_uint64-SameMachineState :
    (c : Csr) (addr value pc insn : ℕ)
    → addr < 4096
    → priv_code c.priv ≤ 1
    → c.interrupt_enable < 2 ^ 64
    → c.interrupt_pending < 2 ^ 64
    → check_trap c addr true pc insn ≡ ok none
    → SameMachineState c (write_uint64 c addr value)
write_uint64-SameMachineState c addr value pc insn small level ie_small ip_small allowed =
    let permitted = (check_trap-none_iff c addr true pc insn small real).0 allowed in
    write_uint64_low c addr value (omega (arith, permitted.level)) (permitted.not_read_only refl)
      ie_small ip_small
  where
    real : c.priv ≢ reserved
    real e = ground (arith, ap priv_code e)
