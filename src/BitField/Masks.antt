-- ===== src/BitField/Masks.antt =====
-- Members through masked reads and writes.
use rafi_1st.Base.{ℕ, ◌+◌, ◌-◌, ◌%◌, ◌^◌, ◌≤◌, ◌<◌, ◌≡◌, sym, ap, ◌∙◌, false, ◌&&◌, arith, ltb}
use rafi_1st.Base.Bits.{test_bit, test_bit-zero, test_bit-mod, test_bit-ones, eq_of_bits}
use rafi_1st.BitField.{Member, width, get_member, get_with_mask, set_with_mask}
use rafi_1st.BitField.Laws.{test_bit-get_member, test_bit-get_with_mask, test_bit-set_with_mask}

-- A mask selects all of the member, or none of it.
abbrev pub Covers : ℕ → Member → Type 0
Covers k m = get_member k m ≡ 2 ^ width m - 1

abbrev pub Misses : ℕ → Member → Type 0
Misses k m = get_member k m ≡ 0

Covers-bit :
    (k : ℕ) (m : Member) (i : ℕ)
    → Covers k m
    → (ltb i (width m) && test_bit k (m.lsb + i)) ≡ ltb i (width m)
Covers-bit k m i covers =
    sym (test_bit-get_member k m i)
    ∙ ap (λ (t : ℕ). test_bit t i) covers
    ∙ test_bit-ones (width m) i

Misses-bit :
    (k : ℕ) (m : Member) (i : ℕ) → Misses k m → (ltb i (width m) && test_bit k (m.lsb + i)) ≡ false
Misses-bit k m i misses =
    sym (test_bit-get_member k m i) ∙ ap (λ (t : ℕ). test_bit t i) misses ∙ test_bit-zero i

-- Members with the same bits are equal.
eq_of_member_bits :
    (v x : ℕ) (m : Member)
    → ((i : ℕ)
        → (ltb i (width m) && test_bit v (m.lsb + i)) ≡ (ltb i (width m) && test_bit x (m.lsb + i)))
    → get_member v m ≡ get_member x m
eq_of_member_bits v x m same =
    eq_of_bits (get_member v m) (get_member x m)
      λ i. test_bit-get_member v m i ∙ same i ∙ sym (test_bit-get_member x m i)

pub get_member-get_with_mask :
    (v k : ℕ) (m : Member) → Covers k m → get_member (get_with_mask v k) m ≡ get_member v m
get_member-get_with_mask v k m covers =
    eq_of_member_bits (get_with_mask v k) v m
      λ i. ground (arith, test_bit-get_with_mask v k (m.lsb + i), Covers-bit k m i covers)

pub get_member-set_with_mask :
    (w v x k : ℕ) (m : Member)
    → v < 2 ^ w
    → Covers k m
    → get_member (set_with_mask w v x k) m ≡ get_member x m
get_member-set_with_mask w v x k m small covers =
    eq_of_member_bits (set_with_mask w v x k) x m
      λ i. ground (arith, test_bit-set_with_mask w v x k (m.lsb + i) small, Covers-bit k m i covers)

pub get_member-set_with_mask_missed :
    (w v x k : ℕ) (m : Member)
    → v < 2 ^ w
    → Misses k m
    → get_member (set_with_mask w v x k) m ≡ get_member v m
get_member-set_with_mask_missed w v x k m small misses =
    eq_of_member_bits (set_with_mask w v x k) v m
      λ i. ground (arith, test_bit-set_with_mask w v x k (m.lsb + i) small, Misses-bit k m i misses)

-- Cutting a value to `k` bits keeps the members below.
pub get_member-mod :
    (v k : ℕ) (m : Member) → m.lsb + width m ≤ k → get_member (v % 2 ^ k) m ≡ get_member v m
get_member-mod v k m below =
    eq_of_member_bits (v % 2 ^ k) v m λ i. ground (arith, test_bit-mod k v (m.lsb + i))

-- A masked read has nothing in the members that the mask misses.
pub get_member-get_with_mask_missed :
    (v k : ℕ) (m : Member) → Misses k m → get_member (get_with_mask v k) m ≡ 0
get_member-get_with_mask_missed v k m misses = eq_of_bits (get_member (get_with_mask v k) m) 0 λ i.
    test_bit-get_member (get_with_mask v k) m i
    ∙ ground
        (arith, test_bit-get_with_mask v k (m.lsb + i), Misses-bit k m i misses, test_bit-zero i)
