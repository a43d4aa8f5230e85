-- ===== src/Cpu/FpRegFile.antt =====
-- src/bin/rafi-emu/cpu/FpRegFile.h and .cpp: the floating-point registers. An entry is the 64 bits
-- of the union. ReadFloat, ReadDouble, WriteFloat and WriteDouble, at the host's types, are not
-- called.
use rafi_1st.Base.{ℕ, ◌+◌, ◌*◌, ◌%◌, ◌^◌, Result, ok, ◌>>◌}
use rafi_1st.Cpu.IntRegFile.{check_reg_id, update}

pub record FpRegFile : Type 0 where
  pub entries : ℕ → ℕ

abbrev pub initial_fp_reg_file : FpRegFile
initial_fp_reg_file = record { entries = λ _. 0 }

unfoldable pub read_uint32 : FpRegFile → ℕ → Result ℕ
read_uint32 r reg_id = check_reg_id reg_id >> ok (r.entries reg_id % 2 ^ 32)

unfoldable pub read_uint64 : FpRegFile → ℕ → Result ℕ
read_uint64 r reg_id = check_reg_id reg_id >> ok (r.entries reg_id)

-- A value of 32 bits is boxed: its high half is all ones.
unfoldable pub write_uint32 : FpRegFile → ℕ → ℕ → Result FpRegFile
write_uint32 r reg_id v =
    check_reg_id reg_id
    >> ok (record r { entries = update r.entries reg_id (0xffff_ffff * 2 ^ 32 + v % 2 ^ 32) })

unfoldable pub write_uint64 : FpRegFile → ℕ → ℕ → Result FpRegFile
write_uint64 r reg_id v =
    check_reg_id reg_id >> ok (record r { entries = update r.entries reg_id (v % 2 ^ 64) })
