-- ===== src/Cpu/IntRegFile.antt =====
-- src/bin/rafi-emu/cpu/IntRegFile.h and .cpp: the integer registers. An entry is the 64 bits of the
-- union; its `s32` and `u32` are the low half.
pub mod RoundTrip
use rafi_1st.Base.{
  ℕ, ◌+◌, ◌*◌, ◌/◌, ◌%◌, ◌^◌, leb, ltb, ◌==◌, if◌then◌else◌, Result, ok, require, ◌>>◌, emu_error,
  indeterminate,
}

pub record IntRegFile : Type 0 where
  pub entries : ℕ → ℕ

abbrev pub initial_int_reg_file : IntRegFile
initial_int_reg_file = record { entries = λ _. 0 }

-- RAFI_EMU_CHECK_RANGE(0, regId, 32) lets 32 pass, which is out of the array.
abbrev pub check_reg_id : ℕ → Result (Unit {0})
check_reg_id reg_id = require (leb reg_id 32) emu_error >> require (ltb reg_id 32) indeterminate

abbrev pub update : (ℕ → ℕ) → ℕ → ℕ → ℕ → ℕ
update entries reg_id v other = if other == reg_id then v else entries other

-- ReadInt32 and ReadUInt32 read the same bits, and so do ReadInt64 and ReadUInt64.
unfoldable pub read_int32 : IntRegFile → ℕ → Result ℕ
read_int32 r reg_id = check_reg_id reg_id >> ok (r.entries reg_id % 2 ^ 32)

unfoldable pub read_uint32 : IntRegFile → ℕ → Result ℕ
read_uint32 r reg_id = check_reg_id reg_id >> ok (r.entries reg_id % 2 ^ 32)

unfoldable pub read_int64 : IntRegFile → ℕ → Result ℕ
read_int64 r reg_id = check_reg_id reg_id >> ok (r.entries reg_id)

unfoldable pub read_uint64 : IntRegFile → ℕ → Result ℕ
read_uint64 r reg_id = check_reg_id reg_id >> ok (r.entries reg_id)

-- The parameter's type cuts the value; a write of 32 bits keeps the other half.
unfoldable pub write32 : IntRegFile → ℕ → ℕ → IntRegFile
write32 r reg_id v = if reg_id == 0 then r else record r {
  entries = update r.entries reg_id (r.entries reg_id / 2 ^ 32 % 2 ^ 32 * 2 ^ 32 + v % 2 ^ 32);
}

unfoldable pub write64 : IntRegFile → ℕ → ℕ → IntRegFile
write64 r reg_id v =
    if reg_id == 0 then r else record r { entries = update r.entries reg_id (v % 2 ^ 64) }

unfoldable pub write_int32 : IntRegFile → ℕ → ℕ → Result IntRegFile
write_int32 r reg_id v = check_reg_id reg_id >> ok (write32 r reg_id v)

unfoldable pub write_uint32 : IntRegFile → ℕ → ℕ → Result IntRegFile
write_uint32 r reg_id v = check_reg_id reg_id >> ok (write32 r reg_id v)

unfoldable pub write_int64 : IntRegFile → ℕ → ℕ → Result IntRegFile
write_int64 r reg_id v = check_reg_id reg_id >> ok (write64 r reg_id v)

unfoldable pub write_uint64 : IntRegFile → ℕ → ℕ → Result IntRegFile
write_uint64 r reg_id v = check_reg_id reg_id >> ok (write64 r reg_id v)
