-- ===== src/Cpu/TrapProcessor/Stack.antt =====
-- The one-level stack of interrupt enables and privilege levels in the status register: what
-- entering a trap pushes and what a return pops, for a level's three fields.
use native.Mathlib.Nat.{mod-eq_of_lt}
use rafi_1st.Base.{ℕ, ◌%◌, ◌^◌, ◌<◌, ◌≡◌, ◌∙◌, inl, inr, arith}
use rafi_1st.Base.Bits.{two_pow-pos}
use rafi_1st.BitField.{Member, width, get_member, set_member}
use rafi_1st.RvCsr.Status
use rafi_1st.BitField.Laws.{
  Fits, Apart, get_member-set_member, get_member-set_member-Apart, set_member-lt, get_member-lt,
}

Apart-symm : (m n : Member) → Apart m n → Apart n m
Apart-symm m n (inl h) = inr h
Apart-symm m n (inr h) = inl h

-- `ie` is the enable, `pie` the previous enable, both of one bit; `pp` is the previous level.
pub record IsStack (ie pie pp : Member) : Type 0 where
  pub ie_fits : Fits ie 64
  pub pie_fits : Fits pie 64
  pub pp_fits : Fits pp 64
  pub same_width : width ie ≡ width pie
  pub ie_pie : Apart ie pie
  pub ie_pp : Apart ie pp
  pub pie_pp : Apart pie pp

module _ (ie pie pp : Member) where
  abbrev pub push : ℕ → ℕ → ℕ
  push s0 code =
      set_member 64 (set_member 64 (set_member 64 s0 pie (get_member s0 ie)) ie 0) pp code

  abbrev pub pop : ℕ → ℕ
  pop s0 = set_member 64 (set_member 64 s0 pp 0) ie (get_member s0 pie)

module _ (ie pie pp : Member) (k : IsStack ie pie pp) (s0 : ℕ) (small : s0 < 2 ^ 64) where
  previous : ℕ
  previous = set_member 64 s0 pie (get_member s0 ie)

  previous-lt : previous < 2 ^ 64
  unfolding previous
  previous-lt = set_member-lt 64 s0 pie (get_member s0 ie) small k.pie_fits

  masked-lt : set_member 64 previous ie 0 < 2 ^ 64
  masked-lt = set_member-lt 64 previous ie 0 previous-lt k.ie_fits

  pub push-lt : (code : ℕ) → push ie pie pp s0 code < 2 ^ 64
  unfolding previous
  push-lt code = set_member-lt 64 (set_member 64 previous ie 0) pp code masked-lt k.pp_fits

  pub push-pp : (code : ℕ) → get_member (push ie pie pp s0 code) pp ≡ code % 2 ^ width pp
  unfolding previous
  push-pp code = get_member-set_member 64 (set_member 64 previous ie 0) pp code masked-lt k.pp_fits

  -- A field apart from `pp` is as it was before the level was written.
  below_pp :
      (code : ℕ) (m : Member)
      → Apart pp m
      → get_member (push ie pie pp s0 code) m ≡ get_member (set_member 64 previous ie 0) m
  unfolding previous
  below_pp code m apart =
      get_member-set_member-Apart 64 (set_member 64 previous ie 0) pp m code masked-lt k.pp_fits
        apart

  pub push-ie : (code : ℕ) → get_member (push ie pie pp s0 code) ie ≡ 0
  push-ie code =
      below_pp code ie (Apart-symm ie pp k.ie_pp)
      ∙ get_member-set_member 64 previous ie 0 previous-lt k.ie_fits
      ∙ mod-eq_of_lt (two_pow-pos (width ie))

  pub push-pie : (code : ℕ) → get_member (push ie pie pp s0 code) pie ≡ get_member s0 ie
  unfolding previous
  push-pie code =
      below_pp code pie (Apart-symm pie pp k.pie_pp)
      ∙ get_member-set_member-Apart 64 previous ie pie 0 previous-lt k.ie_fits k.ie_pie
      ∙ get_member-set_member 64 s0 pie (get_member s0 ie) small k.pie_fits
      ∙ mod-eq_of_lt (rw (← k.same_width) (get_member-lt s0 ie))

  pub push_other :
      (code : ℕ) (m : Member)
      → Apart ie m
      → Apart pie m
      → Apart pp m
      → get_member (push ie pie pp s0 code) m ≡ get_member s0 m
  unfolding previous
  push_other code m a b d =
      below_pp code m d
      ∙ get_member-set_member-Apart 64 previous ie m 0 previous-lt k.ie_fits a
      ∙ get_member-set_member-Apart 64 s0 pie m (get_member s0 ie) small k.pie_fits b

  popped-lt : set_member 64 s0 pp 0 < 2 ^ 64
  popped-lt = set_member-lt 64 s0 pp 0 small k.pp_fits

  pub pop-lt : pop ie pie pp s0 < 2 ^ 64
  pop-lt = set_member-lt 64 (set_member 64 s0 pp 0) ie (get_member s0 pie) popped-lt k.ie_fits

  pub pop-ie : get_member (pop ie pie pp s0) ie ≡ get_member s0 pie
  pop-ie =
      get_member-set_member 64 (set_member 64 s0 pp 0) ie (get_member s0 pie) popped-lt k.ie_fits
      ∙ mod-eq_of_lt (rw k.same_width (get_member-lt s0 pie))

  pub pop_other :
      (m : Member) → Apart ie m → Apart pp m → get_member (pop ie pie pp s0) m ≡ get_member s0 m
  pop_other m a d =
      get_member-set_member-Apart 64 (set_member 64 s0 pp 0) ie m (get_member s0 pie) popped-lt
        k.ie_fits a
      ∙ get_member-set_member-Apart 64 s0 pp m 0 small k.pp_fits d

pub machine-IsStack : IsStack Status.mie Status.mpie Status.mpp
machine-IsStack = omega arith

pub supervisor-IsStack : IsStack Status.sie Status.spie Status.spp
supervisor-IsStack = omega arith
