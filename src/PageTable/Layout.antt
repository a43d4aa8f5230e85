-- ===== src/PageTable/Layout.antt =====
-- The addresses and the entries of include/rafi/common/RvPageTable.h as arithmetic.
use rafi_1st.Base.{ℕ, ◌+◌, ◌*◌, ◌/◌, ◌%◌, ◌^◌, ◌<◌, ◌≡◌, refl, ◌∙◌, arith}
use rafi_1st.BitField.{Member, width, set_member}
use rafi_1st.BitField.Laws.{Fits, get_member_lem}
use rafi_1st.BitField.Sum.{set_member-eq-add}
use rafi_1st.PageTable.Sv32
use rafi_1st.PageTable.Sv39
use rafi_1st.PageTable.Sv48

-- One more member, below those that are written.
below :
    (v : ℕ) (m : Member) (x : ℕ)
    → Fits m 64
    → v < 2 ^ 64
    → v / 2 ^ m.lsb % 2 ^ width m ≡ 0
    → x < 2 ^ width m
    → set_member 64 v m x ≡ v + x * 2 ^ m.lsb
below v m x fits small empty in_range =
    set_member-eq-add 64 v m x small fits (get_member_lem v m ∙ empty) in_range

pub Sv32-table_address_lem :
    (ppn o : ℕ) → ppn < 2 ^ 22 → o < 2 ^ 12 → Sv32.table_address ppn o ≡ ppn * 2 ^ 12 + o
unfolding Sv32.table_address
Sv32-table_address_lem ppn o hp ho =
    rw
      (
        below 0 Sv32.address_ppn ppn (omega arith) (omega arith) refl hp,
        below (0 + ppn * 2 ^ 12) Sv32.address_offset o (omega arith) (omega arith) (omega arith) ho,
      )
      (omega arith)

pub Sv32-physical_address_lem :
    (p1 p0 o : ℕ)
    → p1 < 2 ^ 12
    → p0 < 2 ^ 10
    → o < 2 ^ 12
    → Sv32.physical_address p1 p0 o ≡ p1 * 2 ^ 22 + p0 * 2 ^ 12 + o
unfolding Sv32.physical_address
Sv32-physical_address_lem p1 p0 o hp1 hp0 ho =
    rw
      (
        below 0 Sv32.address_ppn1 p1 (omega arith) (omega arith) refl hp1,
        below (0 + p1 * 2 ^ 22) Sv32.address_ppn0 p0 (omega arith) (omega arith) (omega arith) hp0,
        below (0 + p1 * 2 ^ 22 + p0 * 2 ^ 12) Sv32.address_offset o (omega arith) (omega arith)
            (omega arith) ho,
      )
      (omega arith)

pub Sv39-table_address_lem :
    (ppn o : ℕ) → ppn < 2 ^ 44 → o < 2 ^ 12 → Sv39.table_address ppn o ≡ ppn * 2 ^ 12 + o
unfolding Sv39.table_address
Sv39-table_address_lem ppn o hp ho =
    rw
      (
        below 0 Sv39.address_ppn ppn (omega arith) (omega arith) refl hp,
        below (0 + ppn * 2 ^ 12) Sv39.address_offset o (omega arith) (omega arith) (omega arith) ho,
      )
      (omega arith)

pub Sv39-physical_address_lem :
    (p2 p1 p0 o : ℕ)
    → p2 < 2 ^ 26
    → p1 < 2 ^ 9
    → p0 < 2 ^ 9
    → o < 2 ^ 12
    → Sv39.physical_address p2 p1 p0 o ≡ p2 * 2 ^ 30 + p1 * 2 ^ 21 + p0 * 2 ^ 12 + o
unfolding Sv39.physical_address
Sv39-physical_address_lem p2 p1 p0 o hp2 hp1 hp0 ho =
    rw
      (
        below 0 Sv39.address_ppn2 p2 (omega arith) (omega arith) refl hp2,
        below (0 + p2 * 2 ^ 30) Sv39.address_ppn1 p1 (omega arith) (omega arith) (omega arith) hp1,
        below (0 + p2 * 2 ^ 30 + p1 * 2 ^ 21) Sv39.address_ppn0 p0 (omega arith) (omega arith)
            (omega arith) hp0,
        below (0 + p2 * 2 ^ 30 + p1 * 2 ^ 21 + p0 * 2 ^ 12) Sv39.address_offset o (omega arith)
            (omega arith) (omega arith) ho,
      )
      (omega arith)

pub Sv48-table_address_lem :
    (ppn o : ℕ) → ppn < 2 ^ 44 → o < 2 ^ 12 → Sv48.table_address ppn o ≡ ppn * 2 ^ 12 + o
unfolding Sv48.table_address
Sv48-table_address_lem ppn o hp ho =
    rw
      (
        below 0 Sv48.address_ppn ppn (omega arith) (omega arith) refl hp,
        below (0 + ppn * 2 ^ 12) Sv48.address_offset o (omega arith) (omega arith) (omega arith) ho,
      )
      (omega arith)

-- A physical address of Sv48 from four page numbers and an offset within their widths is the sum
-- of each at its place.
pub Sv48-physical_address_lem :
    (p3 p2 p1 p0 o : ℕ)
    → p3 < 2 ^ 17
    → p2 < 2 ^ 9
    → p1 < 2 ^ 9
    → p0 < 2 ^ 9
    → o < 2 ^ 12
    → Sv48.physical_address p3 p2 p1 p0 o
      ≡ p3 * 2 ^ 39 + p2 * 2 ^ 30 + p1 * 2 ^ 21 + p0 * 2 ^ 12 + o
unfolding Sv48.physical_address
Sv48-physical_address_lem p3 p2 p1 p0 o hp3 hp2 hp1 hp0 ho =
    rw
      (
        below 0 Sv48.address_ppn3 p3 (omega arith) (omega arith) refl hp3,
        below (0 + p3 * 2 ^ 39) Sv48.address_ppn2 p2 (omega arith) (omega arith) (omega arith) hp2,
        below (0 + p3 * 2 ^ 39 + p2 * 2 ^ 30) Sv48.address_ppn1 p1 (omega arith) (omega arith)
            (omega arith) hp1,
        below (0 + p3 * 2 ^ 39 + p2 * 2 ^ 30 + p1 * 2 ^ 21) Sv48.address_ppn0 p0 (omega arith)
            (omega arith) (omega arith) hp0,
        below (0 + p3 * 2 ^ 39 + p2 * 2 ^ 30 + p1 * 2 ^ 21 + p0 * 2 ^ 12) Sv48.address_offset o
            (omega arith) (omega arith) (omega arith) ho,
      )
      (omega arith)
