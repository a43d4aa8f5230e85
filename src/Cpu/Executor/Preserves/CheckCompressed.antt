-- ===== src/Cpu/Executor/Preserves/CheckCompressed.antt =====
-- The checks before compressed instructions of src/bin/rafi-emu/cpu/Executor.cpp keep what their
-- parts keep.
use rafi_1st.Cpu.Executor.Keeps.{Keeps}
use rafi_1st.Cpu.Executor.Machine.{Environment, Machine}
use rafi_1st.Cpu.Executor.Stable.{Checked, checked_rules}
use rafi_1st.Base.{ℕ}
use rafi_1st.Decoder.Ops.{Op, OpCode, c_fld}
use rafi_1st.Cpu.Executor.Check.Compressed.{
  pre_check_trap_rv32c, pre_check_trap_rv32c_fld, pre_check_trap_rv32c_fldsp,
  pre_check_trap_rv32c_flw, pre_check_trap_rv32c_flwsp, pre_check_trap_rv32c_fsd,
  pre_check_trap_rv32c_fsdsp, pre_check_trap_rv32c_fsw, pre_check_trap_rv32c_fswsp,
  pre_check_trap_rv32c_lw, pre_check_trap_rv32c_lwsp, pre_check_trap_rv32c_sw,
  pre_check_trap_rv32c_swsp, pre_check_trap_rv64c, pre_check_trap_rv64c_fld,
  pre_check_trap_rv64c_fldsp, pre_check_trap_rv64c_fsd, pre_check_trap_rv64c_fsdsp,
  pre_check_trap_rv64c_ld, pre_check_trap_rv64c_ldsp, pre_check_trap_rv64c_lw,
  pre_check_trap_rv64c_lwsp, pre_check_trap_rv64c_sd, pre_check_trap_rv64c_sdsp,
  pre_check_trap_rv64c_sw, pre_check_trap_rv64c_swsp,
}

module _ {B : Type 0} {P : Machine B → Type 0} ⦃checked : Checked P⦄ where
  pub pre_check_trap_rv32c_fld-Keeps :
      (e : Environment B) (op : Op) (pc : ℕ) → Keeps P (pre_check_trap_rv32c_fld e op pc)
  unfolding pre_check_trap_rv32c_fld
  pre_check_trap_rv32c_fld-Keeps e op pc = search checked_rules depth 60

  pub pre_check_trap_rv32c_fldsp-Keeps :
      (e : Environment B) (op : Op) (pc : ℕ) → Keeps P (pre_check_trap_rv32c_fldsp e op pc)
  unfolding pre_check_trap_rv32c_fldsp
  pre_check_trap_rv32c_fldsp-Keeps e op pc = search checked_rules depth 60

  pub pre_check_trap_rv32c_flw-Keeps :
      (e : Environment B) (op : Op) (pc : ℕ) → Keeps P (pre_check_trap_rv32c_flw e op pc)
  unfolding pre_check_trap_rv32c_flw
  pre_check_trap_rv32c_flw-Keeps e op pc = search checked_rules depth 60

  pub pre_check_trap_rv32c_flwsp-Keeps :
      (e : Environment B) (op : Op) (pc : ℕ) → Keeps P (pre_check_trap_rv32c_flwsp e op pc)
  unfolding pre_check_trap_rv32c_flwsp
  pre_check_trap_rv32c_flwsp-Keeps e op pc = search checked_rules depth 60

  pub pre_check_trap_rv32c_fsd-Keeps :
      (e : Environment B) (op : Op) (pc : ℕ) → Keeps P (pre_check_trap_rv32c_fsd e op pc)
  unfolding pre_check_trap_rv32c_fsd
  pre_check_trap_rv32c_fsd-Keeps e op pc = search checked_rules depth 60

  pub pre_check_trap_rv32c_fsdsp-Keeps :
      (e : Environment B) (op : Op) (pc : ℕ) → Keeps P (pre_check_trap_rv32c_fsdsp e op pc)
  unfolding pre_check_trap_rv32c_fsdsp
  pre_check_trap_rv32c_fsdsp-Keeps e op pc = search checked_rules depth 60

  pub pre_check_trap_rv32c_fsw-Keeps :
      (e : Environment B) (op : Op) (pc : ℕ) → Keeps P (pre_check_trap_rv32c_fsw e op pc)
  unfolding pre_check_trap_rv32c_fsw
  pre_check_trap_rv32c_fsw-Keeps e op pc = search checked_rules depth 60

  pub pre_check_trap_rv32c_fswsp-Keeps :
      (e : Environment B) (op : Op) (pc : ℕ) → Keeps P (pre_check_trap_rv32c_fswsp e op pc)
  unfolding pre_check_trap_rv32c_fswsp
  pre_check_trap_rv32c_fswsp-Keeps e op pc = search checked_rules depth 60

  pub pre_check_trap_rv32c_lw-Keeps :
      (e : Environment B) (op : Op) (pc : ℕ) → Keeps P (pre_check_trap_rv32c_lw e op pc)
  unfolding pre_check_trap_rv32c_lw
  pre_check_trap_rv32c_lw-Keeps e op pc = search checked_rules depth 60

  pub pre_check_trap_rv32c_lwsp-Keeps :
      (e : Environment B) (op : Op) (pc : ℕ) → Keeps P (pre_check_trap_rv32c_lwsp e op pc)
  unfolding pre_check_trap_rv32c_lwsp
  pre_check_trap_rv32c_lwsp-Keeps e op pc = search checked_rules depth 60

  pub pre_check_trap_rv32c_sw-Keeps :
      (e : Environment B) (op : Op) (pc : ℕ) → Keeps P (pre_check_trap_rv32c_sw e op pc)
  unfolding pre_check_trap_rv32c_sw
  pre_check_trap_rv32c_sw-Keeps e op pc = search checked_rules depth 60

  pub pre_check_trap_rv32c_swsp-Keeps :
      (e : Environment B) (op : Op) (pc : ℕ) → Keeps P (pre_check_trap_rv32c_swsp e op pc)
  unfolding pre_check_trap_rv32c_swsp
  pre_check_trap_rv32c_swsp-Keeps e op pc = search checked_rules depth 60

  pub pre_check_trap_rv64c_fld-Keeps :
      (e : Environment B) (op : Op) (pc : ℕ) → Keeps P (pre_check_trap_rv64c_fld e op pc)
  unfolding pre_check_trap_rv64c_fld
  pre_check_trap_rv64c_fld-Keeps e op pc = search checked_rules depth 60

  pub pre_check_trap_rv64c_fldsp-Keeps :
      (e : Environment B) (op : Op) (pc : ℕ) → Keeps P (pre_check_trap_rv64c_fldsp e op pc)
  unfolding pre_check_trap_rv64c_fldsp
  pre_check_trap_rv64c_fldsp-Keeps e op pc = search checked_rules depth 60

  pub pre_check_trap_rv64c_fsd-Keeps :
      (e : Environment B) (op : Op) (pc : ℕ) → Keeps P (pre_check_trap_rv64c_fsd e op pc)
  unfolding pre_check_trap_rv64c_fsd
  pre_check_trap_rv64c_fsd-Keeps e op pc = search checked_rules depth 60

  pub pre_check_trap_rv64c_fsdsp-Keeps :
      (e : Environment B) (op : Op) (pc : ℕ) → Keeps P (pre_check_trap_rv64c_fsdsp e op pc)
  unfolding pre_check_trap_rv64c_fsdsp
  pre_check_trap_rv64c_fsdsp-Keeps e op pc = search checked_rules depth 60

  pub pre_check_trap_rv64c_ld-Keeps :
      (e : Environment B) (op : Op) (pc : ℕ) → Keeps P (pre_check_trap_rv64c_ld e op pc)
  unfolding pre_check_trap_rv64c_ld
  pre_check_trap_rv64c_ld-Keeps e op pc = search checked_rules depth 60

  pub pre_check_trap_rv64c_ldsp-Keeps :
      (e : Environment B) (op : Op) (pc : ℕ) → Keeps P (pre_check_trap_rv64c_ldsp e op pc)
  unfolding pre_check_trap_rv64c_ldsp
  pre_check_trap_rv64c_ldsp-Keeps e op pc = search checked_rules depth 60

  pub pre_check_trap_rv64c_lw-Keeps :
      (e : Environment B) (op : Op) (pc : ℕ) → Keeps P (pre_check_trap_rv64c_lw e op pc)
  unfolding pre_check_trap_rv64c_lw
  pre_check_trap_rv64c_lw-Keeps e op pc = search checked_rules depth 60

  pub pre_check_trap_rv64c_lwsp-Keeps :
      (e : Environment B) (op : Op) (pc : ℕ) → Keeps P (pre_check_trap_rv64c_lwsp e op pc)
  unfolding pre_check_trap_rv64c_lwsp
  pre_check_trap_rv64c_lwsp-Keeps e op pc = search checked_rules depth 60

  pub pre_check_trap_rv64c_sd-Keeps :
      (e : Environment B) (op : Op) (pc : ℕ) → Keeps P (pre_check_trap_rv64c_sd e op pc)
  unfolding pre_check_trap_rv64c_sd
  pre_check_trap_rv64c_sd-Keeps e op pc = search checked_rules depth 60

  pub pre_check_trap_rv64c_sdsp-Keeps :
      (e : Environment B) (op : Op) (pc : ℕ) → Keeps P (pre_check_trap_rv64c_sdsp e op pc)
  unfolding pre_check_trap_rv64c_sdsp
  pre_check_trap_rv64c_sdsp-Keeps e op pc = search checked_rules depth 60

  pub pre_check_trap_rv64c_sw-Keeps :
      (e : Environment B) (op : Op) (pc : ℕ) → Keeps P (pre_check_trap_rv64c_sw e op pc)
  unfolding pre_check_trap_rv64c_sw
  pre_check_trap_rv64c_sw-Keeps e op pc = search checked_rules depth 60

  pub pre_check_trap_rv64c_swsp-Keeps :
      (e : Environment B) (op : Op) (pc : ℕ) → Keeps P (pre_check_trap_rv64c_swsp e op pc)
  unfolding pre_check_trap_rv64c_swsp
  pre_check_trap_rv64c_swsp-Keeps e op pc = search checked_rules depth 60

  ruleset pre_check_trap_rv32c_rules = (
    checked_rules, pre_check_trap_rv32c_fld-Keeps, pre_check_trap_rv32c_fldsp-Keeps,
    pre_check_trap_rv32c_flw-Keeps, pre_check_trap_rv32c_flwsp-Keeps,
    pre_check_trap_rv32c_fsd-Keeps, pre_check_trap_rv32c_fsdsp-Keeps,
    pre_check_trap_rv32c_fsw-Keeps, pre_check_trap_rv32c_fswsp-Keeps, pre_check_trap_rv32c_lw-Keeps,
    pre_check_trap_rv32c_lwsp-Keeps, pre_check_trap_rv32c_sw-Keeps, pre_check_trap_rv32c_swsp-Keeps,
  )

  pub pre_check_trap_rv32c-Keeps :
      (e : Environment B) (code : OpCode) (op : Op) (pc : ℕ)
      → Keeps P (pre_check_trap_rv32c e code op pc)
  unfolding pre_check_trap_rv32c
  pre_check_trap_rv32c-Keeps e c_fld op pc = search pre_check_trap_rv32c_rules depth 60
  pre_check_trap_rv32c-Keeps e _ op pc = search pre_check_trap_rv32c_rules depth 60

  ruleset pre_check_trap_rv64c_rules = (
    checked_rules, pre_check_trap_rv64c_fld-Keeps, pre_check_trap_rv64c_fldsp-Keeps,
    pre_check_trap_rv64c_fsd-Keeps, pre_check_trap_rv64c_fsdsp-Keeps, pre_check_trap_rv64c_ld-Keeps,
    pre_check_trap_rv64c_ldsp-Keeps, pre_check_trap_rv64c_lw-Keeps, pre_check_trap_rv64c_lwsp-Keeps,
    pre_check_trap_rv64c_sd-Keeps, pre_check_trap_rv64c_sdsp-Keeps, pre_check_trap_rv64c_sw-Keeps,
    pre_check_trap_rv64c_swsp-Keeps,
  )

  pub pre_check_trap_rv64c-Keeps :
      (e : Environment B) (code : OpCode) (op : Op) (pc : ℕ)
      → Keeps P (pre_check_trap_rv64c e code op pc)
  unfolding pre_check_trap_rv64c
  pre_check_trap_rv64c-Keeps e c_fld op pc = search pre_check_trap_rv64c_rules depth 60
  pre_check_trap_rv64c-Keeps e _ op pc = search pre_check_trap_rv64c_rules depth 60
