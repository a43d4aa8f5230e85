-- ===== src/Cpu/TrapProcessor/Supervisor.antt =====
-- A trap into supervisor mode and the return from it.
use rafi_1st.Base.{
  ℕ, ◌%◌, ◌^◌, ◌<◌, ◌≡◌, refl, ap, ◌∙◌, ◌⊎◌, inl, inr, Bool, List, ok, ◌>>=◌, arith,
}
use rafi_1st.BitField.{Member, get_member}
use rafi_1st.BitField.Laws.{Apart}
use rafi_1st.RvTypes.{SupportedXlen, PrivilegeLevel, user, supervisor, priv_code, priv_of_code}
use rafi_1st.RvCsr.Addr
use rafi_1st.RvCsr.Status
use rafi_1st.Trace.{Event}
use rafi_1st.Cpu.Csr.{Csr, read_status, write_status, to_xstatus, set_priv}
use rafi_1st.Cpu.Csr.Read.{read_uint64, read_supervisor_mode_register}
use rafi_1st.Cpu.Csr.Write.{write_uint64, write_supervisor_mode_register}
use rafi_1st.Cpu.Csr.Fields.{write_status-lt}
use rafi_1st.Cpu.Csr.Sstatus.{
  IsSupervisorField, read-sstatus, write-sstatus, sie-IsSupervisorField, spie-IsSupervisorField,
  spp-IsSupervisorField,
}
use rafi_1st.Cpu.TrapProcessor.{
  Outcome, enter_vector, leave, save_supervisor, return_supervisor, cause_of, process_trap_enter,
  process_trap_return,
}
use rafi_1st.Cpu.TrapProcessor.Stack.{
  push, pop, supervisor-IsStack, push-pp, push-pie, push_other, pop-ie, pop_other,
}

unfoldable pub read : Csr → ℕ
read c = to_xstatus (read_uint64 c Addr.sstatus)

pub read-lt : (c : Csr) → read c < 2 ^ 64
unfolding read
read-lt c = omega arith

-- What entering writes to `sstatus`, and what a return writes.
abbrev pub pushed : Csr → PrivilegeLevel → ℕ
pushed c p = push Status.sie Status.spie Status.spp (read c) (priv_code p)

abbrev popped : Csr → ℕ
popped c = pop Status.sie Status.spie Status.spp (read c)

-- `spp` has one bit: it holds the levels below machine mode.
abbrev pub FitsSpp : PrivilegeLevel → Type 0
FitsSpp p = (p ≡ user) ⊎ (p ≡ supervisor)

spp_round_trip : (p : PrivilegeLevel) → FitsSpp p → priv_of_code (priv_code p % 2) ≡ p
spp_round_trip p (inl e) = rw e
spp_round_trip p (inr e) = rw e

module _ (c : Csr) (p : PrivilegeLevel) (small : c.status < 2 ^ 64) where
  inside : Csr
  inside = write_uint64 c Addr.sstatus (pushed c p)

  inside-lt : inside.status < 2 ^ 64
  unfolding inside write_uint64 write_supervisor_mode_register
  inside-lt = write_status-lt c _ small

  read-inside :
      (m : Member) → IsSupervisorField m → get_member (read inside) m ≡ get_member (pushed c p) m
  unfolding inside read
  read-inside m f = read-sstatus inside m inside-lt f ∙ write-sstatus c (pushed c p) m small f

  read-field : (m : Member) → IsSupervisorField m → get_member (read c) m ≡ get_member c.status m
  unfolding read
  read-field m f = read-sstatus c m small f

  restored : Csr
  restored = write_uint64 inside Addr.sstatus (popped inside)

  restored-sie : get_member restored.status Status.sie ≡ get_member c.status Status.sie
  unfolding restored
  restored-sie =
      write-sstatus inside (popped inside) Status.sie inside-lt sie-IsSupervisorField
      ∙ pop-ie Status.sie Status.spie Status.spp supervisor-IsStack (read inside) (read-lt inside)
      ∙ read-inside Status.spie spie-IsSupervisorField
      ∙ push-pie Status.sie Status.spie Status.spp supervisor-IsStack (read c) (read-lt c)
          (priv_code p)
      ∙ read-field Status.sie sie-IsSupervisorField

  restored_other :
      (m : Member)
      → IsSupervisorField m
      → Apart Status.sie m
      → Apart Status.spie m
      → Apart Status.spp m
      → get_member restored.status m ≡ get_member c.status m
  unfolding restored
  restored_other m f a b d =
      write-sstatus inside (popped inside) m inside-lt f
      ∙ pop_other Status.sie Status.spie Status.spp supervisor-IsStack (read inside)
          (read-lt inside) m a d
      ∙ read-inside m f
      ∙ push_other Status.sie Status.spie Status.spp supervisor-IsStack (read c) (read-lt c)
          (priv_code p) m a b d
      ∙ read-field m f

  read-spp : FitsSpp p → priv_of_code (get_member (read inside) Status.spp) ≡ p
  read-spp below =
      ap priv_of_code (
        read-inside Status.spp spp-IsSupervisorField
        ∙ push-pp Status.sie Status.spie Status.spp supervisor-IsStack (read c) (read-lt c)
            (priv_code p))
      ∙ spp_round_trip p below

-- A trap and its return: the level, the program counter and the supervisor's interrupt enable of
-- before, and no other supervisor field changed but SPIE and SPP; of the other registers only the
-- three that describe the trap are written.
pub record IsRestored (c : Csr) (cause pc value : ℕ) (result : Outcome) : Type 0 where
  pub after : Csr
  pub events : List Event
  pub returns : result ≡ ok (after, events)
  pub registers : after ≡ record c {
    status = after.status;
    supervisor_cause = cause;
    supervisor_exception_pc = pc;
    supervisor_trap_value = value;
    pc = pc;
  }
  pub enable : get_member after.status Status.sie ≡ get_member c.status Status.sie
  pub fields :
      (m : Member)
      → IsSupervisorField m
      → Apart Status.sie m
      → Apart Status.spie m
      → Apart Status.spp m
      → get_member after.status m ≡ get_member c.status m

abbrev pub enter_and_return_supervisor :
    SupportedXlen → Csr → List Event → Bool → ℕ → ℕ → ℕ → Outcome
enter_and_return_supervisor xlen c events is_interrupt code trap_value pc = do
  entered ← process_trap_enter xlen c events is_interrupt code trap_value pc supervisor
  process_trap_return entered.0 entered.1 supervisor

-- Entering supervisor mode from user or supervisor mode and returning restores what was
-- interrupted, whatever the trap: the level, the pc, SIE, and every other field that the
-- supervisor sees and can set but SPIE and SPP.
pub enter_and_return_supervisor-IsRestored :
    (xlen : SupportedXlen) (c : Csr) (events : List Event) (is_interrupt : Bool)
    (code trap_value pc : ℕ)
    → c.status < 2 ^ 64
    → FitsSpp c.priv
    → IsRestored c
        (cause_of xlen is_interrupt code)
        pc
        trap_value
        (enter_and_return_supervisor xlen c events is_interrupt code trap_value pc)
unfolding process_trap_enter process_trap_return save_supervisor return_supervisor read_uint64
    write_uint64 read_supervisor_mode_register write_supervisor_mode_register read_status
    write_status inside restored read
enter_and_return_supervisor-IsRestored xlen c events is_interrupt code trap_value pc small below =
    let cause = cause_of xlen is_interrupt code in
    let saved = save_supervisor (set_priv c supervisor) c.priv cause pc trap_value in
    let previous = get_member (to_xstatus (read_uint64 saved Addr.sstatus)) Status.spp in
    let vector = read_uint64 saved Addr.stvec in
    let entered = enter_vector xlen saved events is_interrupt code trap_value supervisor vector in
    record {
      after = set_priv (return_supervisor saved) (priv_of_code previous);
      events = (leave (return_supervisor entered.0) entered.1 (priv_of_code previous)).1;
      returns = refl;
      registers =
          ap (λ (p : PrivilegeLevel). set_priv (return_supervisor saved) p)
            (read-spp c c.priv small below);
      enable = restored-sie c c.priv small;
      fields = restored_other c c.priv small;
    }
