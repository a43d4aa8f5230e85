-- ===== src/Cpu/Executor/Steps.antt =====
-- The steps that the executor takes on its parts (src/bin/rafi-emu/cpu/Executor.cpp): the
-- reservation, the control and status registers and the register files.
use rafi_1st.Base
use rafi_1st.Base.{
  ℕ, ◌<◌, ◌^◌, Option, none, some, List, Fault, Result, ok, throw, exited, bad_variant_access,
}
use rafi_1st.Cpu.Csr.{Csr, set_pc, write_status, write_fp_csr}
use rafi_1st.Cpu.Csr.Write.{write_uint32, write_uint64}
use rafi_1st.Cpu.AtomicManager.{reserve, cancel}
use rafi_1st.Cpu.IntRegFile
use rafi_1st.Cpu.IntRegFile.{IntRegFile}
use rafi_1st.Cpu.FpRegFile
use rafi_1st.Cpu.FpRegFile.{FpRegFile}
use rafi_1st.Cpu.Executor.Machine.{Execution, gets, get_value, modify}

-- m_pAtomicManager->Cancel, Reserve
unfoldable pub cancel_reservation : {B : Type 0} → Execution B (Unit {0})
unfolding modify
cancel_reservation = modify (λ m. ok (record m { atomic = cancel m.atomic }))

unfoldable pub reserve_address : {B : Type 0} → ℕ → Execution B (Unit {0})
unfolding modify
reserve_address addr = modify (λ m. ok (record m { atomic = reserve m.atomic addr }))

-- m_pCsr->SetPc, ReadUInt32, ReadUInt64, WriteUInt32, WriteUInt64
unfoldable pub jump_to : {B : Type 0} → ℕ → Execution B (Unit {0})
unfolding modify
jump_to pc = modify (λ m. ok (record m { csr = set_pc m.csr pc }))

unfoldable pub get_csr : {B A : Type 0} → (Csr → A) → Execution B A
unfolding get_value
get_csr f = get_value (λ m. f m.csr)

unfoldable pub put_csr : {B : Type 0} → (Csr → Csr) → Execution B (Unit {0})
unfolding modify
put_csr f = modify (λ m. ok (record m { csr = f m.csr }))

unfoldable pub put_csr32 : {B : Type 0} → ℕ → ℕ → Execution B (Unit {0})
unfolding put_csr
put_csr32 addr v = put_csr (λ c. write_uint32 c addr v)

unfoldable pub put_csr64 : {B : Type 0} → ℕ → ℕ → Execution B (Unit {0})
unfolding put_csr
put_csr64 addr v = put_csr (λ c. write_uint64 c addr v)

-- m_pCsr->WriteStatus, WriteFpCsr
unfoldable pub put_status : {B : Type 0} → ℕ → Execution B (Unit {0})
unfolding put_csr
put_status v = put_csr (λ c. write_status c v)

unfoldable pub put_fp_csr : {B : Type 0} → ℕ → Execution B (Unit {0})
unfolding put_csr
put_fp_csr v = put_csr (λ c. write_fp_csr c v)

-- m_pIntRegFile
unfoldable pub get_int32 : {B : Type 0} → ℕ → Execution B ℕ
unfolding gets
get_int32 reg_id = gets (λ m. IntRegFile.read_int32 m.int_regs reg_id)

unfoldable pub get_uint32 : {B : Type 0} → ℕ → Execution B ℕ
unfolding gets
get_uint32 reg_id = gets (λ m. IntRegFile.read_uint32 m.int_regs reg_id)

unfoldable pub get_int64 : {B : Type 0} → ℕ → Execution B ℕ
unfolding gets
get_int64 reg_id = gets (λ m. IntRegFile.read_int64 m.int_regs reg_id)

unfoldable pub get_uint64 : {B : Type 0} → ℕ → Execution B ℕ
unfolding gets
get_uint64 reg_id = gets (λ m. IntRegFile.read_uint64 m.int_regs reg_id)

unfoldable pub put_int_regs :
    {B : Type 0} → (IntRegFile → Result IntRegFile) → Execution B (Unit {0})
unfolding modify
put_int_regs f = modify (λ m. Base.◌>>=◌ (f m.int_regs) (λ r. ok (record m { int_regs = r })))

unfoldable pub put_int32 : {B : Type 0} → ℕ → ℕ → Execution B (Unit {0})
unfolding put_int_regs
put_int32 reg_id v = put_int_regs (λ r. IntRegFile.write_int32 r reg_id v)

unfoldable pub put_uint32 : {B : Type 0} → ℕ → ℕ → Execution B (Unit {0})
unfolding put_int_regs
put_uint32 reg_id v = put_int_regs (λ r. IntRegFile.write_uint32 r reg_id v)

unfoldable pub put_int64 : {B : Type 0} → ℕ → ℕ → Execution B (Unit {0})
unfolding put_int_regs
put_int64 reg_id v = put_int_regs (λ r. IntRegFile.write_int64 r reg_id v)

unfoldable pub put_uint64 : {B : Type 0} → ℕ → ℕ → Execution B (Unit {0})
unfolding put_int_regs
put_uint64 reg_id v = put_int_regs (λ r. IntRegFile.write_uint64 r reg_id v)

-- m_pFpRegFile
unfoldable pub get_fp32 : {B : Type 0} → ℕ → Execution B ℕ
unfolding gets
get_fp32 reg_id = gets (λ m. FpRegFile.read_uint32 m.fp_regs reg_id)

unfoldable pub put_fp32 : {B : Type 0} → ℕ → ℕ → Execution B (Unit {0})
unfolding modify
put_fp32 reg_id v = modify (λ m.
    Base.◌>>=◌ (FpRegFile.write_uint32 m.fp_regs reg_id v) (λ r. ok (record m { fp_regs = r })))

unfoldable pub get_fp64 : {B : Type 0} → ℕ → Execution B ℕ
unfolding gets
get_fp64 reg_id = gets (λ m. FpRegFile.read_uint64 m.fp_regs reg_id)

unfoldable pub put_fp64 : {B : Type 0} → ℕ → ℕ → Execution B (Unit {0})
unfolding modify
put_fp64 reg_id v = modify (λ m.
    Base.◌>>=◌ (FpRegFile.write_uint64 m.fp_regs reg_id v) (λ r. ok (record m { fp_regs = r })))
