-- ===== src/Cpu/Csr/Fields.antt =====
-- The fields of the status register through its reads and writes, at the three levels.
use rafi_1st.Base.{ℕ, ◌+◌, ◌^◌, ◌≤◌, ◌<◌, ◌≡◌, ◌∙◌, inr, arith}
use rafi_1st.Base.Bits.{test_bit, eq_of_bits}
use rafi_1st.BitField.{Member, width, get_member, set_member}
use rafi_1st.BitField.Bit.{test_bit-set_one_wide}
use rafi_1st.BitField.Laws.{
  Fits, Apart, test_bit-get_member, get_member-set_member-Apart, set_member-lt, set_with_mask-lt,
}
use rafi_1st.BitField.Masks.{Covers, get_member-set_with_mask, get_member-mod}
use rafi_1st.RvTypes.{SupportedXlen, rv32, rv64}
use rafi_1st.RvCsr.Status
use rafi_1st.Cpu.Csr.{Csr, sd, read_status, write_status, to_xstatus}

-- Below the dirty bit of either base.
abbrev pub Low : Member → Type 0
Low m = m.lsb + width m ≤ 31

sd-Apart : (x : SupportedXlen) (m : Member) → Low m → Apart (sd x) m
sd-Apart rv32 m low = inr (omega arith)
sd-Apart rv64 m low = inr (omega arith)

sd-Fits : (x : SupportedXlen) → Fits (sd x) 64
sd-Fits rv32 = omega arith
sd-Fits rv64 = omega arith

-- A read of the status register shows each bit below the dirty bits as it is.
pub test_bit-read_status :
    (c : Csr) (k : ℕ) → k < 31 → test_bit (read_status c) k ≡ test_bit c.status k
unfolding read_status
test_bit-read_status c k low = ground (arith, sd_lem c.xlen)
  where
    sd_lem :
        (x : SupportedXlen) → test_bit (set_member 64 c.status (sd x) 1) k ≡ test_bit c.status k
    sd_lem rv32 = ground (arith, test_bit-set_one_wide 64 c.status 31 k (omega arith))
    sd_lem rv64 = ground (arith, test_bit-set_one_wide 64 c.status 63 k (omega arith))

pub get_member-read_status_wide :
    (c : Csr) (m : Member) → Low m → get_member (read_status c) m ≡ get_member c.status m
get_member-read_status_wide c m low =
    eq_of_bits (get_member (read_status c) m) (get_member c.status m) λ i. ground (
      arith,
      test_bit-get_member (read_status c) m i,
      test_bit-get_member c.status m i,
      test_bit-read_status c (m.lsb + i),
    )

module _ (c : Csr) (m : Member) (small : c.status < 2 ^ 64) (low : Low m) where
  pub get_member-read_status : get_member (read_status c) m ≡ get_member c.status m
  unfolding read_status
  get_member-read_status = ground (
    arith,
    get_member-set_member-Apart 64 c.status (sd c.xlen) m 1 small (sd-Fits c.xlen)
        (sd-Apart c.xlen m low),
  )

  pub get_member-to_xstatus-read_status :
      get_member (to_xstatus (read_status c)) m ≡ get_member c.status m
  get_member-to_xstatus-read_status =
      get_member-mod (read_status c) 32 m (omega arith) ∙ get_member-read_status

  -- A write sets the fields of the write mask to those of the value.
  pub get_member-write_status :
      (v : ℕ) → Covers Status.write_mask m → get_member (write_status c v).status m ≡ get_member v m
  unfolding write_status
  get_member-write_status v covers =
      get_member-set_with_mask 64 c.status (to_xstatus v) Status.write_mask m small covers
      ∙ get_member-mod v 32 m (omega arith)

pub read_status-lt : (c : Csr) → c.status < 2 ^ 64 → read_status c < 2 ^ 64
unfolding read_status
read_status-lt c small =
    ground (arith, set_member-lt 64 c.status (sd c.xlen) 1 small (sd-Fits c.xlen))

pub write_status-lt : (c : Csr) (v : ℕ) → c.status < 2 ^ 64 → (write_status c v).status < 2 ^ 64
unfolding write_status
write_status-lt c v small =
    set_with_mask-lt 64 c.status (to_xstatus v) Status.write_mask small (omega arith)
