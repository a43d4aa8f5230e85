-- ===== src/Cpu/InterruptController/Pending.antt =====
-- The pending bits that `UpdateCsr` leaves.
use rafi_1st.Base.{
  ℕ, ◌/◌, ◌%◌, ◌^◌, ◌<◌, ◌≡◌, ◌≢◌, ap, ◌∙◌, Bool, false, not, ◌&&◌, arith, ◌==◌, if◌then◌else◌,
}
use rafi_1st.Base.Bits.{test_bit, test_bit_zero_lem}
use rafi_1st.BitField.{bit, set_member}
use rafi_1st.BitField.Bit.{test_bit-set_bit}
use rafi_1st.BitField.Laws.{set_member-lt}
use rafi_1st.RvTypes.{
  InterruptType, machine_timer, supervisor_timer, machine_external, supervisor_external,
}
use rafi_1st.Cpu.Csr.{Csr}
use rafi_1st.Cpu.Csr.Read.{
  read_uint32, read_uint64, read_machine_mode_register, read_supervisor_mode_register,
}
use rafi_1st.Cpu.InterruptController.{keeps, refresh, update_timer, update_external, update_csr}

-- Bit `i` after a refresh of the bits `m`, `s` and `u`: one of the three is the request, by the
-- delegation registers; every other bit is as before.
abbrev pub refreshed : Bool → Bool → ℕ → ℕ → ℕ → Bool → ℕ → Bool → Bool
refreshed machine_keeps supervisor_keeps m s u requested i before =
    if i == m
    then requested && machine_keeps
    else if i == s
    then requested && not machine_keeps && supervisor_keeps
    else if i == u
    then requested && not machine_keeps && not supervisor_keeps
    else before

module _ (tm ts : InterruptType) (m s u mideleg sideleg : ℕ) (m_fits : m < 64) (s_fits : s < 64)
    (u_fits : u < 64) (requested : Bool) (pending : ℕ) (small : pending < 2 ^ 64) where
  cleared_m : ℕ
  cleared_m = set_member 64 pending (bit m) 0

  cleared_s : ℕ
  cleared_s = set_member 64 cleared_m (bit s) 0

  cleared_u : ℕ
  cleared_u = set_member 64 cleared_s (bit u) 0

  cleared_m-lt : cleared_m < 2 ^ 64
  unfolding cleared_m
  cleared_m-lt = set_member-lt 64 pending (bit m) 0 small (omega arith)

  cleared_s-lt : cleared_s < 2 ^ 64
  unfolding cleared_s
  cleared_s-lt = set_member-lt 64 cleared_m (bit s) 0 cleared_m-lt (omega arith)

  cleared_u-lt : cleared_u < 2 ^ 64
  unfolding cleared_u
  cleared_u-lt = set_member-lt 64 cleared_s (bit u) 0 cleared_s-lt (omega arith)

  cleared-bit :
      (i : ℕ)
      → test_bit cleared_u i ≡ (
          if i == m
          then false
          else if i == s
          then false
          else if i == u
          then false
          else test_bit pending i)
  unfolding cleared_m cleared_s cleared_u
  cleared-bit i = ground (
    arith,
    test_bit-set_bit cleared_s u 0 i cleared_s-lt u_fits,
    test_bit-set_bit cleared_m s 0 i cleared_m-lt s_fits,
    test_bit-set_bit pending m 0 i small m_fits,
    test_bit_zero_lem 0,
  )

  pub test_bit-refresh :
      (i : ℕ)
      → m ≢ s
      → m ≢ u
      → s ≢ u
      → test_bit (refresh tm ts (bit m) (bit s) (bit u) mideleg sideleg requested pending) i
        ≡ refreshed (keeps mideleg tm) (keeps sideleg ts) m s u requested i (test_bit pending i)
  unfolding refresh cleared_m cleared_s cleared_u
  test_bit-refresh i ms mu su = ground (
    arith,
    cleared-bit i,
    test_bit-set_bit cleared_u m 1 i cleared_u-lt m_fits,
    test_bit-set_bit cleared_u s 1 i cleared_u-lt s_fits,
    test_bit-set_bit cleared_u u 1 i cleared_u-lt u_fits,
    test_bit_zero_lem 1,
  )

  pub refresh-lt : refresh tm ts (bit m) (bit s) (bit u) mideleg sideleg requested pending < 2 ^ 64
  unfolding refresh cleared_m cleared_s cleared_u
  refresh-lt = ground (
    arith,
    cleared_u-lt,
    set_member-lt 64 cleared_u (bit m) 1 cleared_u-lt,
    set_member-lt 64 cleared_u (bit s) 1 cleared_u-lt,
    set_member-lt 64 cleared_u (bit u) 1 cleared_u-lt,
  )

-- What `UpdateCsr` makes of bit `i` of `mip`
abbrev pub updated_bit : Csr → Bool → ℕ → Bool
updated_bit c requested i =
    let mideleg = c.machine_interrupt_delegation % 2 ^ 32 in
    let sideleg = c.supervisor_interrupt_delegation % 2 ^ 32 in
    refreshed (mideleg / 2 ^ 11 == 0) (sideleg / 2 ^ 9 == 0) 11 9 8 requested i (
      refreshed (mideleg / 2 ^ 7 == 0) (sideleg / 2 ^ 5 == 0) 7 5 4 requested i
        (test_bit c.interrupt_pending i))

-- Bit `i` of `mip` after `UpdateCsr`, by the delegation registers as read through 32 bits: the
-- timer's three bits 7, 5 and 4 and the external three 11, 9 and 8 both hold the timer's request,
-- at the level that is not delegated; a level counts as delegated as soon as any bit of the
-- register at its code or above is set. Every other bit is as before.
pub test_bit-update_csr :
    (c : Csr) (requested : Bool) (i : ℕ)
    → c.interrupt_pending < 2 ^ 64
    → test_bit (update_csr c requested).interrupt_pending i ≡ updated_bit c requested i
unfolding update_csr update_timer update_external read_uint32 read_uint64 read_machine_mode_register
    read_supervisor_mode_register
test_bit-update_csr c requested i small =
    let mideleg = c.machine_interrupt_delegation % 2 ^ 32 in
    let sideleg = c.supervisor_interrupt_delegation % 2 ^ 32 in
    let timer = update_timer mideleg sideleg requested c.interrupt_pending in
    let timer-lt : timer < 2 ^ 64 =
      refresh-lt machine_timer supervisor_timer 7 5 4 mideleg sideleg (omega arith) (omega arith)
        (omega arith) requested c.interrupt_pending small in
    test_bit-refresh machine_external supervisor_external 11 9 8 mideleg sideleg (omega arith)
      (omega arith) (omega arith) requested timer timer-lt i (omega arith) (omega arith)
      (omega arith)
    ∙ ap (refreshed (mideleg / 2 ^ 11 == 0) (sideleg / 2 ^ 9 == 0) 11 9 8 requested i) (
        test_bit-refresh machine_timer supervisor_timer 7 5 4 mideleg sideleg (omega arith)
          (omega arith) (omega arith) requested c.interrupt_pending small i (omega arith)
          (omega arith) (omega arith))
