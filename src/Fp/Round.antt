-- ===== src/Fp/Round.antt =====
-- src/lib/fp/ScopedFpRound.cpp: the rounding mode of an instruction becomes one of the host, which
-- SoftFloat does not read. RAFI_NOT_IMPLEMENTED of include/rafi/common/Macro.h exits.
use rafi_1st.Base.{ℕ, ◌==◌, if◌then◌else◌, Result, ok, throw, exited}

-- FE_TONEAREST, FE_TOWARDZERO, FE_DOWNWARD, FE_UPWARD
pub data HostRound : Type 0 where
  to_nearest toward_zero downward upward : HostRound

unfoldable pub convert_to_host_rounding_mode : ℕ → Result HostRound
convert_to_host_rounding_mode rv_round =
    if rv_round == 0
    then ok to_nearest
    else if rv_round == 1
    then ok toward_zero
    else if rv_round == 2
    then ok downward
    else if rv_round == 3
    then ok upward
    else if rv_round == 4
    then ok to_nearest
    else throw exited
