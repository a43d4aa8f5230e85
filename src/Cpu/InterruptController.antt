-- ===== src/Cpu/InterruptController.antt =====
-- src/bin/rafi-emu/cpu/InterruptController.cpp: which interrupt, if any, the next cycle takes.
-- The timer source is not part of the class: what it answers is an argument. The external source
-- is registered and never asked.
pub mod Selection
pub mod Pending
use rafi_1st.Base.{
  ℕ, ◌/◌, ◌^◌, Bool, true, false, not, ◌&&◌, ◌==◌, if◌then◌else◌, List, [], ◌∷◌, Option, none, some,
  Result, ok, throw, ◌>>=◌, not_implemented,
}
use rafi_1st.BitField.{Member, get_member, set_member}
use rafi_1st.RvTypes.{
  PrivilegeLevel, user, supervisor, reserved, machine, InterruptType, user_software,
  supervisor_software, machine_software, user_timer, supervisor_timer, machine_timer, user_external,
  supervisor_external, machine_external, interrupt_code,
}
use rafi_1st.RvCsr.Addr
use rafi_1st.RvCsr.Status
use rafi_1st.RvCsr.Ie
use rafi_1st.RvCsr.Ip
use rafi_1st.Cpu.Csr.{Csr, read_status, write_interrupt_pending}
use rafi_1st.Cpu.Csr.Read.{read_uint32}

pub record InterruptController : Type 0 where
  pub is_requested : Bool
  pub interrupt_type : InterruptType

-- A member of one bit, as a condition.
abbrev pub is_set : ℕ → Member → Bool
is_set v m = not (get_member v m == 0)

-- `(deleg >> type) == 0`
abbrev pub keeps : ℕ → InterruptType → Bool
keeps deleg type = deleg / 2 ^ interrupt_code type == 0

-- The pending bit that a request raises, by the two delegation registers.
abbrev pub raised : ℕ → ℕ → InterruptType → InterruptType → Member → Member → Member → Member
raised mideleg sideleg machine_type supervisor_type m s u =
    if keeps mideleg machine_type then m else if keeps sideleg supervisor_type then s else u

abbrev clear_three : ℕ → Member → Member → Member → ℕ
clear_three pending m s u = set_member 64 (set_member 64 (set_member 64 pending m 0) s 0) u 0

-- One of the two halves of `UpdateCsr`: the three pending bits of a kind are cleared, and one is
-- set if there is a request.
unfoldable pub refresh :
    InterruptType → InterruptType → Member → Member → Member → ℕ → ℕ → Bool → ℕ → ℕ
refresh machine_type supervisor_type m s u mideleg sideleg requested pending =
    let cleared = clear_three pending m s u in
    let which = raised mideleg sideleg machine_type supervisor_type m s u in
    if requested then set_member 64 cleared which 1 else cleared

unfoldable pub update_timer : ℕ → ℕ → Bool → ℕ → ℕ
update_timer = refresh machine_timer supervisor_timer Ip.mtip Ip.stip Ip.utip

-- The source asks the timer here too.
unfoldable pub update_external : ℕ → ℕ → Bool → ℕ → ℕ
update_external = refresh machine_external supervisor_external Ip.meip Ip.seip Ip.ueip

unfoldable pub update_csr : Csr → Bool → Csr
update_csr c timer_requested =
    let mideleg = read_uint32 c Addr.mideleg in
    let sideleg = read_uint32 c Addr.sideleg in
    let pending = update_timer mideleg sideleg timer_requested c.interrupt_pending in
    write_interrupt_pending c (update_external mideleg sideleg timer_requested pending)

-- Does the current level take interrupts at all?
abbrev pub interrupts_enabled : ℕ → PrivilegeLevel → Result Bool
interrupts_enabled status machine = ok (is_set status Status.mie)
interrupts_enabled status supervisor = ok (is_set status Status.sie)
interrupts_enabled status user = ok (is_set status Status.uie)
interrupts_enabled status reserved = throw not_implemented

-- The tests of `Update`, in their order.
unfoldable pub select_interrupt : ℕ → ℕ → Option InterruptType
select_interrupt ie ip =
    if is_set ie Ie.meie && is_set ip Ip.meip
    then some machine_external
    else if is_set ie Ie.mtie && is_set ip Ip.mtip
    then some machine_timer
    else if is_set ie Ie.msie && is_set ip Ip.msip
    then some machine_software
    else if is_set ie Ie.seie && is_set ip Ip.seip
    then some supervisor_external
    else if is_set ie Ie.stie && is_set ip Ip.stip
    then some supervisor_timer
    else if is_set ie Ie.ssie && is_set ip Ip.ssip
    then some supervisor_software
    else if is_set ie Ie.ueie && is_set ip Ip.ueip
    then some user_external
    else if is_set ie Ie.utie && is_set ip Ip.utip
    then some user_timer
    else if is_set ie Ie.usie && is_set ip Ip.usip
    then some user_software
    else none

abbrev pub record_request : InterruptController → Option InterruptType → InterruptController
record_request i none = record i { is_requested = false }
record_request i (some type) = record { is_requested = true; interrupt_type = type }

unfoldable pub update : Csr → Bool → InterruptController → Result (Csr × InterruptController)
update c timer_requested i = do
  let c' = update_csr c timer_requested
  enabled ← interrupts_enabled (read_status c') c'.priv
  let choice = select_interrupt c'.interrupt_enable c'.interrupt_pending
  ok (c', record_request i (if enabled then choice else none))
