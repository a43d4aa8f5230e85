-- ===== src/BitField/Bit.antt =====
-- Members of one bit.
use rafi_1st.Base.{
  ℕ, ◌+◌, ◌-◌, ◌*◌, ◌%◌, ◌^◌, ◌<◌, ◌≡◌, ◌∙◌, ap, not, ◌&&◌, ◌||◌, arith, ltb, ◌==◌, if◌then◌else◌,
  bit_and,
}
use rafi_1st.Base.Bits.{
  test_bit, test_bit_zero_lem, test_bit-bit_or, test_bit-bit_and, test_bit-mod, test_bit-mul,
}
use rafi_1st.BitField.{Member, bit, mask, complement, get_member, set_member}
use rafi_1st.BitField.Laws.{
  test_bit-get_member, test_bit-set_member, get_member-lt, Fits, in_member, test_bit-mask,
  test_bit-complement,
}

-- A member of one bit is not 0 exactly when the bit is set.
pub get_member-bit : (v k : ℕ) → not (get_member v (bit k) == 0) ≡ test_bit v k
get_member-bit v k = ground (
  arith,
  test_bit-get_member v (bit k) 0,
  test_bit_zero_lem (get_member v (bit k)),
  get_member-lt v (bit k),
  ap (test_bit v) {x = k + 0} {y = k},
)

pub test_bit-set_bit :
    (v k x i : ℕ)
    → v < 2 ^ 64
    → k < 64
    → test_bit (set_member 64 v (bit k) x) i ≡ (if i == k then test_bit x 0 else test_bit v i)
test_bit-set_bit v k x i small fits = ground (
  arith,
  test_bit-set_member 64 v (bit k) x i small (omega arith),
  ap (test_bit x) {x = i - k} {y = 0},
)

-- Writing 1 sets the bit.
pub test_bit-set_one :
    (w v k i : ℕ)
    → v < 2 ^ w
    → k < w
    → test_bit (set_member w v (bit k) 1) i ≡ (test_bit v i || i == k)
test_bit-set_one w v k i small fits = ground (
  arith,
  test_bit-set_member w v (bit k) 1 i small (omega arith),
  test_bit_zero_lem 1,
  ap (test_bit 1) {x = i - k} {y = 0},
)

-- The bits after `SetMember`, of a value that may be wider than the word
pub test_bit-set_member_wide :
    (w v : ℕ) (m : Member) (x i : ℕ)
    → Fits m w
    → test_bit (set_member w v m x) i
      ≡ (if in_member m i then test_bit x (i - m.lsb) else ltb i w && test_bit v i)
unfolding set_member
test_bit-set_member_wide w v m x i fits =
    let cleared = complement w (mask m) in
    let moved = x * 2 ^ m.lsb % 2 ^ w in
    test_bit-bit_or (bit_and v cleared) (bit_and moved (mask m)) i
    ∙ ground (
      arith,
      test_bit-bit_and v cleared i,
      test_bit-bit_and moved (mask m) i,
      test_bit-complement w (mask m) i,
      test_bit-mask m i,
      test_bit-mod w (x * 2 ^ m.lsb) i,
      test_bit-mul m.lsb x i,
    )

pub test_bit-set_one_wide :
    (w v k i : ℕ)
    → k < w
    → test_bit (set_member w v (bit k) 1) i ≡ ((ltb i w && test_bit v i) || i == k)
test_bit-set_one_wide w v k i fits = ground (
  arith,
  test_bit-set_member_wide w v (bit k) 1 i (omega arith),
  test_bit_zero_lem 1,
  ap (test_bit 1) {x = i - k} {y = 0},
)
