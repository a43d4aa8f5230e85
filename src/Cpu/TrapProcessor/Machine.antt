-- ===== src/Cpu/TrapProcessor/Machine.antt =====
-- A trap into machine mode and the return from it.
use rafi_1st.Base.{ℕ, ◌%◌, ◌^◌, ◌<◌, ◌≡◌, refl, ap, ◌∙◌, Bool, List, ok, ◌>>=◌, arith}
use rafi_1st.BitField.{Member, get_member}
use rafi_1st.BitField.Laws.{Apart}
use rafi_1st.BitField.Masks.{Covers}
use rafi_1st.RvTypes.{
  SupportedXlen, PrivilegeLevel, user, supervisor, reserved, machine, priv_code, priv_of_code,
}
use rafi_1st.RvCsr.Addr
use rafi_1st.RvCsr.Status
use rafi_1st.Trace.{Event}
use rafi_1st.Cpu.Csr.{Csr, read_status, write_status, to_xstatus, set_priv}
use rafi_1st.Cpu.Csr.Read.{read_uint64, read_machine_mode_register}
use rafi_1st.Cpu.Csr.Write.{write_uint64, write_machine_mode_register}
use rafi_1st.Cpu.Csr.Fields.{
  Low, get_member-to_xstatus-read_status, get_member-write_status, write_status-lt,
}
use rafi_1st.Cpu.TrapProcessor.{
  Outcome, enter_vector, leave, save_machine, return_machine, cause_of, process_trap_enter,
  process_trap_return,
}
use rafi_1st.Cpu.TrapProcessor.Stack.{
  push, pop, machine-IsStack, push-pp, push-pie, push_other, pop-ie, pop_other,
}

-- What entering writes to `mstatus`, and what a return writes.
abbrev pub pushed : Csr → PrivilegeLevel → ℕ
pushed c p = push Status.mie Status.mpie Status.mpp (to_xstatus (read_status c)) (priv_code p)

abbrev popped : Csr → ℕ
popped c = pop Status.mie Status.mpie Status.mpp (to_xstatus (read_status c))

pub save_machine_lem :
    (c : Csr) (p : PrivilegeLevel) (cause pc value : ℕ)
    → save_machine c p cause pc value ≡ record (write_status c (pushed c p)) {
      machine_cause = cause;
      machine_exception_pc = pc;
      machine_trap_value = value;
    }
unfolding save_machine read_uint64 write_uint64 read_machine_mode_register
    write_machine_mode_register write_status
save_machine_lem c p cause pc value = refl

return_machine_lem :
    (c : Csr)
    → return_machine c ≡ record (write_status c (popped c)) { pc = c.machine_exception_pc }
unfolding return_machine read_uint64 write_uint64 read_machine_mode_register
    write_machine_mode_register write_status
return_machine_lem c = refl

pub priv_round_trip : (p : PrivilegeLevel) → priv_of_code (priv_code p % 4) ≡ p
priv_round_trip user = refl
priv_round_trip supervisor = refl
priv_round_trip reserved = refl
priv_round_trip machine = refl

-- A field of the status register that a write can set.
abbrev pub IsWritable : Member → Type 0
IsWritable m = Low m × Covers Status.write_mask m

pub mie-IsWritable : IsWritable Status.mie
unfolding get_member
mie-IsWritable = (omega arith, refl)

mpie-IsWritable : IsWritable Status.mpie
unfolding get_member
mpie-IsWritable = (omega arith, refl)

mpp-IsWritable : IsWritable Status.mpp
unfolding get_member
mpp-IsWritable = (omega arith, refl)

module _ (c : Csr) (p : PrivilegeLevel) (small : c.status < 2 ^ 64) where
  inside : Csr
  inside = write_status c (pushed c p)

  inside-lt : inside.status < 2 ^ 64
  unfolding inside
  inside-lt = write_status-lt c (pushed c p) small

  inside-field :
      (m : Member) → IsWritable m → get_member inside.status m ≡ get_member (pushed c p) m
  unfolding inside
  inside-field m w = get_member-write_status c m small w.0 (pushed c p) w.1

  read-inside :
      (m : Member)
      → IsWritable m
      → get_member (to_xstatus (read_status inside)) m ≡ get_member (pushed c p) m
  read-inside m w = get_member-to_xstatus-read_status inside m inside-lt w.0 ∙ inside-field m w

  read_back : ℕ
  read_back = to_xstatus (read_status inside)

  read_back-lt : read_back < 2 ^ 64
  unfolding read_back
  read_back-lt = omega arith

  restored-field :
      (m : Member)
      → IsWritable m
      → get_member (write_status inside (popped inside)).status m ≡ get_member (popped inside) m
  restored-field m w = get_member-write_status inside m inside-lt w.0 (popped inside) w.1

  restored-mie :
      get_member (write_status inside (popped inside)).status Status.mie
      ≡ get_member c.status Status.mie
  unfolding read_back
  restored-mie =
      restored-field Status.mie mie-IsWritable
      ∙ pop-ie Status.mie Status.mpie Status.mpp machine-IsStack read_back read_back-lt
      ∙ read-inside Status.mpie mpie-IsWritable
      ∙ push-pie Status.mie Status.mpie Status.mpp machine-IsStack (to_xstatus (read_status c))
          (omega arith) (priv_code p)
      ∙ get_member-to_xstatus-read_status c Status.mie small (omega arith)

  restored_other :
      (m : Member)
      → IsWritable m
      → Apart Status.mie m
      → Apart Status.mpie m
      → Apart Status.mpp m
      → get_member (write_status inside (popped inside)).status m ≡ get_member c.status m
  unfolding read_back
  restored_other m w a b d =
      restored-field m w
      ∙ pop_other Status.mie Status.mpie Status.mpp machine-IsStack read_back read_back-lt m a d
      ∙ read-inside m w
      ∙ push_other Status.mie Status.mpie Status.mpp machine-IsStack (to_xstatus (read_status c))
          (omega arith) (priv_code p) m a b d
      ∙ get_member-to_xstatus-read_status c m small w.0

  read-mpp : priv_of_code (get_member (to_xstatus (read_status inside)) Status.mpp) ≡ p
  read-mpp =
      ap priv_of_code (
        read-inside Status.mpp mpp-IsWritable
        ∙ push-pp Status.mie Status.mpie Status.mpp machine-IsStack (to_xstatus (read_status c))
            (omega arith) (priv_code p))
      ∙ priv_round_trip p

-- A trap and its return: the level, the program counter and the interrupt enable of before, and
-- no writable status field other than the previous enable and the previous level changed; of the
-- other registers only the three that describe the trap are written.
pub record IsRestored (c : Csr) (cause pc value : ℕ) (result : Outcome) : Type 0 where
  pub after : Csr
  pub events : List Event
  pub returns : result ≡ ok (after, events)
  pub registers : after ≡ record c {
    status = after.status;
    machine_cause = cause;
    machine_exception_pc = pc;
    machine_trap_value = value;
    pc = pc;
  }
  pub enable : get_member after.status Status.mie ≡ get_member c.status Status.mie
  pub fields :
      (m : Member)
      → IsWritable m
      → Apart Status.mie m
      → Apart Status.mpie m
      → Apart Status.mpp m
      → get_member after.status m ≡ get_member c.status m

abbrev pub enter_and_return_machine : SupportedXlen → Csr → List Event → Bool → ℕ → ℕ → ℕ → Outcome
enter_and_return_machine xlen c events is_interrupt code trap_value pc = do
  entered ← process_trap_enter xlen c events is_interrupt code trap_value pc machine
  process_trap_return entered.0 entered.1 machine

-- Entering machine mode from any level and returning restores what was interrupted, whatever the
-- trap: the level, the pc, MIE, and every other writable field but MPIE and MPP.
pub enter_and_return_machine-IsRestored :
    (xlen : SupportedXlen) (c : Csr) (events : List Event) (is_interrupt : Bool)
    (code trap_value pc : ℕ)
    → c.status < 2 ^ 64
    → IsRestored c
        (cause_of xlen is_interrupt code)
        pc
        trap_value
        (enter_and_return_machine xlen c events is_interrupt code trap_value pc)
unfolding process_trap_enter process_trap_return save_machine return_machine read_uint64
    write_uint64 read_machine_mode_register write_machine_mode_register read_status write_status
    inside
enter_and_return_machine-IsRestored xlen c events is_interrupt code trap_value pc small =
    let cause = cause_of xlen is_interrupt code in
    let saved = save_machine (set_priv c machine) c.priv cause pc trap_value in
    let previous = get_member (to_xstatus (read_status saved)) Status.mpp in
    let vector = read_uint64 saved Addr.mtvec in
    let entered = enter_vector xlen saved events is_interrupt code trap_value machine vector in
    record {
      after = set_priv (return_machine saved) (priv_of_code previous);
      events = (leave (return_machine entered.0) entered.1 (priv_of_code previous)).1;
      returns = refl;
      registers =
          ap (λ (p : PrivilegeLevel). set_priv (return_machine saved) p) (read-mpp c c.priv small);
      enable = restored-mie c c.priv small;
      fields = restored_other c c.priv small;
    }
