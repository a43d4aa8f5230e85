-- ===== src/Cpu/InterruptController/Selection.antt =====
-- The choice among the pending interrupts.
use rafi_1st.Base.{
  ℕ, ◌^◌, ◌<◌, ◌≡◌, ◌≢◌, refl, ◌∙◌, Bool, ◌&&◌, arith, if◌then◌else◌, List, [], ◌∷◌, Option, none,
  some, Result, ok, ◌>>=◌, ap,
}
use rafi_1st.Base.Bits.{test_bit}
use rafi_1st.BitField.Bit.{get_member-bit}
use rafi_1st.RvTypes.{
  user, supervisor, reserved, machine, PrivilegeLevel, InterruptType, user_software,
  supervisor_software, machine_software, user_timer, supervisor_timer, machine_timer, user_external,
  supervisor_external, machine_external, interrupt_code,
}
use rafi_1st.RvCsr.Status
use rafi_1st.Cpu.Csr.{Csr, read_status}
use rafi_1st.Cpu.Csr.Fields.{get_member-read_status}
use rafi_1st.Cpu.InterruptController.{
  InterruptController, select_interrupt, update_csr, interrupts_enabled, record_request, update,
}

-- The order in which the emulator looks for an interrupt, from the most urgent: by level from
-- machine to user, and at each level the external one, the timer and the software one. The
-- privileged architecture has the software one before the timer.
abbrev pub by_priority : List InterruptType
by_priority =
    machine_external ∷ machine_timer ∷ machine_software ∷ supervisor_external ∷ supervisor_timer
    ∷ supervisor_software ∷ user_external ∷ user_timer ∷ user_software ∷ []

-- The first that is enabled and pending, by its bit in the two registers.
abbrev pub first_ready : ℕ → ℕ → List InterruptType → Option InterruptType
first_ready ie ip [] = none
first_ready ie ip (t ∷ ts) =
    if test_bit ie (interrupt_code t) && test_bit ip (interrupt_code t)
    then some t
    else first_ready ie ip ts

pub select_interrupt-eq-first_ready :
    (ie ip : ℕ) → select_interrupt ie ip ≡ first_ready ie ip by_priority
unfolding select_interrupt
select_interrupt-eq-first_ready ie ip = simp get_member-bit

-- The bit of the status register that enables interrupts at a level.
abbrev pub enable_bit : PrivilegeLevel → ℕ
enable_bit user = 0
enable_bit supervisor = 1
enable_bit reserved = 3
enable_bit machine = 3

enabled_lem :
    (c : Csr) (p : PrivilegeLevel)
    → c.status < 2 ^ 64
    → p ≢ reserved
    → interrupts_enabled (read_status c) p ≡ ok (test_bit c.status (enable_bit p))
enabled_lem c machine small h =
    rw (get_member-read_status c Status.mie small (omega arith), get_member-bit)
enabled_lem c supervisor small h =
    rw (get_member-read_status c Status.sie small (omega arith), get_member-bit)
enabled_lem c user small h =
    rw (get_member-read_status c Status.uie small (omega arith), get_member-bit)
enabled_lem c reserved small h = absurd (h refl)

update_csr_same :
    (c : Csr) (requested : Bool)
    → update_csr c requested
      ≡ record c { interrupt_pending = (update_csr c requested).interrupt_pending }
unfolding update_csr
update_csr_same c requested = refl

-- `Update` writes no register but `mip`. It requests an interrupt exactly when the level's enable
-- bit is set and some interrupt is both enabled and pending, and then the first such one in the
-- emulator's order: by level from machine to user, and at each level external, timer, software.
pub update_lem :
    (c : Csr) (requested : Bool) (i : InterruptController)
    → c.status < 2 ^ 64
    → c.priv ≢ reserved
    → let ip = (update_csr c requested).interrupt_pending in
      update c requested i
      ≡ ok (
        record c { interrupt_pending = ip },
        record_request i (
            if test_bit c.status (enable_bit c.priv)
            then first_ready c.interrupt_enable ip by_priority
            else none),
      )
unfolding update update_csr
update_lem c requested i small real =
    let c' = update_csr c requested in
    let choose = λ (choice : Option InterruptType) (enabled : Bool).
      (let r : Result (Csr × InterruptController) =
          ok (c', record_request i (if enabled then choice else none)) in
        r) in
    ap
      (λ (m : Result Bool).
        m >>= choose (select_interrupt c'.interrupt_enable c'.interrupt_pending))
      (enabled_lem c' c.priv small real)
    ∙ ap (λ (choice : Option InterruptType). choose choice (test_bit c.status (enable_bit c.priv)))
        (select_interrupt-eq-first_ready c'.interrupt_enable c'.interrupt_pending)
