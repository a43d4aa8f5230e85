-- ===== src/Cpu/Csr/Sstatus.antt =====
-- `sstatus`, the supervisor's view of the status register.
use rafi_1st.Base.{ℕ, ◌^◌, ◌<◌, ◌≡◌, refl, ◌∙◌, bit_and, arith}
use rafi_1st.BitField.{Member, get_member, get_with_mask}
use rafi_1st.BitField.Masks.{
  Covers, Misses, get_member-get_with_mask, get_member-get_with_mask_missed, get_member-mod,
}
use rafi_1st.RvTypes.{SupportedXlen, rv32, rv64}
use rafi_1st.RvCsr.Addr
use rafi_1st.RvCsr.Status
use rafi_1st.Cpu.Csr.{Csr, read_status, to_xstatus}
use rafi_1st.Cpu.Csr.Read.{read_uint64, read_supervisor_mode_register, supervisor_status_mask}
use rafi_1st.Cpu.Csr.Write.{write_uint64, write_supervisor_mode_register}
use rafi_1st.Cpu.Csr.Fields.{Low, get_member-read_status, get_member-write_status}

-- A field that the supervisor sees and can set, on either base.
abbrev pub IsSupervisorField : Member → Type 0
IsSupervisorField m =
    Low m × Covers Status.write_mask m × ((x : SupportedXlen) → Covers (supervisor_status_mask x) m)

-- A writable field that belongs to machine mode alone.
abbrev pub IsMachineField : Member → Type 0
IsMachineField m =
    Low m × Covers Status.write_mask m × ((x : SupportedXlen) → Misses (supervisor_status_mask x) m)

-- The low 32 bits of a read of `sstatus` hold such a field as the status register does.
pub read-sstatus :
    (c : Csr) (m : Member)
    → c.status < 2 ^ 64
    → IsSupervisorField m
    → get_member (to_xstatus (read_uint64 c Addr.sstatus)) m ≡ get_member c.status m
unfolding read_uint64 read_supervisor_mode_register
read-sstatus c m small f =
    get_member-mod (get_with_mask (read_status c) (supervisor_status_mask c.xlen)) 32 m
      (omega arith)
    ∙ get_member-get_with_mask (read_status c) (supervisor_status_mask c.xlen) m (f.2 c.xlen)
    ∙ get_member-read_status c m small f.0

-- A write of `sstatus` sets each field that a supervisor sees and can set to that of the value.
pub write-sstatus :
    (c : Csr) (v : ℕ) (m : Member)
    → c.status < 2 ^ 64
    → IsSupervisorField m
    → get_member (write_uint64 c Addr.sstatus v).status m ≡ get_member v m
unfolding write_uint64 write_supervisor_mode_register get_with_mask
write-sstatus c v m small f =
    get_member-write_status c m small f.0 (bit_and v (supervisor_status_mask c.xlen)) f.1
    ∙ get_member-get_with_mask v (supervisor_status_mask c.xlen) m (f.2 c.xlen)

-- A write of `sstatus` sets every writable field of machine mode alone to 0, whatever is written.
pub write-sstatus_clears :
    (c : Csr) (v : ℕ) (m : Member)
    → c.status < 2 ^ 64
    → IsMachineField m
    → get_member (write_uint64 c Addr.sstatus v).status m ≡ 0
unfolding write_uint64 write_supervisor_mode_register get_with_mask
write-sstatus_clears c v m small f =
    get_member-write_status c m small f.0 (bit_and v (supervisor_status_mask c.xlen)) f.1
    ∙ get_member-get_with_mask_missed v (supervisor_status_mask c.xlen) m (f.2 c.xlen)

Covers-by_base :
    (m : Member)
    → Covers Status.supervisor_mask_rv32 m
    → Covers Status.supervisor_mask_rv64 m
    → (x : SupportedXlen) → Covers (supervisor_status_mask x) m
Covers-by_base m a b rv32 = a
Covers-by_base m a b rv64 = b

pub sie-IsSupervisorField : IsSupervisorField Status.sie
unfolding get_member
sie-IsSupervisorField = (omega arith, refl, Covers-by_base Status.sie refl refl)

pub spie-IsSupervisorField : IsSupervisorField Status.spie
unfolding get_member
spie-IsSupervisorField = (omega arith, refl, Covers-by_base Status.spie refl refl)

pub spp-IsSupervisorField : IsSupervisorField Status.spp
unfolding get_member
spp-IsSupervisorField = (omega arith, refl, Covers-by_base Status.spp refl refl)

Misses-by_base :
    (m : Member)
    → Misses Status.supervisor_mask_rv32 m
    → Misses Status.supervisor_mask_rv64 m
    → (x : SupportedXlen) → Misses (supervisor_status_mask x) m
Misses-by_base m h32 h64 rv32 = h32
Misses-by_base m h32 h64 rv64 = h64

pub mie-IsMachineField : IsMachineField Status.mie
unfolding get_member
mie-IsMachineField = (omega arith, refl, Misses-by_base Status.mie refl refl)
