-- ===== src/Decoder/Fields.antt =====
-- src/lib/common/Decoder.cpp, `Pick`, and `SignExtend` of include/rafi/common/Util.h at `int64_t`.
use rafi_1st.Base.{ℕ, ◌-◌, ◌/◌, ◌%◌, ◌^◌, ◌≡◌, bit_and, bit_or, ◌==◌, if◌then◌else◌}
use rafi_1st.Cpu.MemoryAccessUnit.{zero_extend_lem}

-- (insn >> lsb) & ((1 << width) - 1)
unfoldable pub pick : ℕ → ℕ → ℕ → ℕ
pick insn lsb width = bit_and (insn / 2 ^ lsb) (2 ^ width - 1)

pub pick_lem : (insn lsb width : ℕ) → pick insn lsb width ≡ insn / 2 ^ lsb % 2 ^ width
unfolding pick
pick_lem insn lsb width = zero_extend_lem width (insn / 2 ^ lsb)

unfoldable pub sign_extend : ℕ → ℕ → ℕ
sign_extend src_width src_value =
    if bit_and src_value (2 ^ (src_width - 1)) == 0
    then src_value
    else bit_or src_value (2 ^ 64 - 2 ^ (src_width - 1))
