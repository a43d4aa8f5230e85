-- ===== src/Cpu/Csr/Access.antt =====
-- src/bin/rafi-emu/cpu/Csr.cpp, `CheckTrap`: may the current privilege level access a register?
use rafi_1st.Base.{
  ℕ, ◌-◌, ◌/◌, ◌^◌, Bool, false, not, ◌&&◌, ◌||◌, bit_and, ltb, leb, ◌==◌, if◌then◌else◌, Option,
  none, some, Result, ok, throw, ◌>>=◌, ◌>>◌, emu_error, not_implemented, require,
}
use rafi_1st.BitField.{get_member}
use rafi_1st.Util.{int32_to_uint64}
use rafi_1st.RvTypes.{PrivilegeLevel, user, supervisor, reserved, machine, is_user, is_supervisor}
use rafi_1st.RvCsr.Addr
use rafi_1st.RvCsr.Status
use rafi_1st.Cpu.Trap.{Trap, make_illegal_instruction_exception}
use rafi_1st.Cpu.Csr.{Csr}
use rafi_1st.Cpu.Csr.Read.{
  is_supervisor_mode_register, is_reserved_mode_register, is_machine_mode_register,
}

abbrev pub in_range : ℕ → ℕ → ℕ → Bool
in_range begin addr end = leb begin addr && ltb addr end

unfoldable pub get_performance_counter_index : ℕ → Result ℕ
get_performance_counter_index addr =
    if in_range Addr.mhpmcounter_begin addr Addr.mhpmcounter_end
    then ok (addr - Addr.mhpmcounter_begin)
    else if in_range Addr.mhpmcounterh_begin addr Addr.mhpmcounterh_end
    then ok (addr - Addr.mhpmcounterh_begin)
    else if in_range Addr.hpmcounter_begin addr Addr.hpmcounter_end
    then ok (addr - Addr.hpmcounter_begin)
    else if in_range Addr.hpmcounterh_begin addr Addr.hpmcounterh_end
    then ok (addr - Addr.hpmcounterh_begin)
    else throw not_implemented

-- RAFI_EMU_CHECK_RANGE(0, x, upper) on a number: it lets the upper bound itself through.
abbrev pub check_range : ℕ → ℕ → Result (Unit {0})
check_range x upper = require (leb x upper) emu_error

-- 1 << index, an `int`, as the operand of `&` with a `uint64_t`
abbrev pub counter_mask : ℕ → ℕ
counter_mask index = int32_to_uint64 (2 ^ index)

-- Is the counter at `index` closed to the level?
abbrev pub counter_closed : Csr → PrivilegeLevel → ℕ → Bool
counter_closed c supervisor index = bit_and c.machine_counter_enable (counter_mask index) == 0
counter_closed c user index =
    bit_and c.machine_counter_enable (counter_mask index) == 0
    || bit_and c.supervisor_counter_enable (counter_mask index) == 0
counter_closed c reserved index = false
counter_closed c machine index = false

abbrev pub is_performance_counter : ℕ → Bool
is_performance_counter addr =
    in_range Addr.hpmcounter_begin addr Addr.hpmcounter_end
    || in_range Addr.hpmcounterh_begin addr Addr.hpmcounterh_end

-- The test of the performance counters: true if the access is refused.
unfoldable pub counter_refused : Csr → ℕ → Result Bool
counter_refused c addr = do
  index ← get_performance_counter_index addr
  check_range index 32
  ok (counter_closed c c.priv index)

-- The last test, for compatibility with qemu, has a trap value of 0.
unfoldable pub check_time : ℕ → ℕ → Option Trap
check_time addr pc =
    if addr == Addr.time then some (make_illegal_instruction_exception pc 0) else none

unfoldable pub check_counters : Csr → ℕ → ℕ → ℕ → Result (Option Trap)
unfolding counter_refused
check_counters c addr pc insn =
    if is_performance_counter addr
    then (do
      refused ← counter_refused c addr
      ok (
          if refused
          then some (make_illegal_instruction_exception pc insn)
          else check_time addr pc))
    else ok (check_time addr pc)

-- The conditions that refuse an access, in their order, before the counters.
unfoldable pub refused_by_mode : Csr → ℕ → Bool → Bool
refused_by_mode c addr write =
    is_supervisor_mode_register addr && is_user c.priv
    || is_reserved_mode_register addr
    || is_machine_mode_register addr && (is_user c.priv || is_supervisor c.priv)
    || addr / 2 ^ 10 == 3 && write
    || addr == Addr.satp && is_supervisor c.priv && not (get_member c.status Status.tvm == 0)

unfoldable pub check_trap : Csr → ℕ → Bool → ℕ → ℕ → Result (Option Trap)
unfolding refused_by_mode
check_trap c addr write pc insn = do
  check_range addr 4096
  (if refused_by_mode c addr write
      then ok (some (make_illegal_instruction_exception pc insn))
      else check_counters c addr pc insn)
