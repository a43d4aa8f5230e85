-- ===== src/Util.antt =====
-- include/rafi/common/Util.h: halves of a 64-bit word, and sign and zero extension.
-- A signed value is its bit pattern. `int32_t` halves are given as the 64-bit pattern that the
-- implicit conversion to `uint64_t` makes of them.
use rafi_1st.Base.{ℕ, ◌+◌, ◌-◌, ◌*◌, ◌/◌, ◌%◌, ◌^◌, bit_and, bit_or, leb, if◌then◌else◌}

-- static_cast<uint64_t>(static_cast<int32_t>(x))
abbrev pub int32_to_uint64 : ℕ → ℕ
int32_to_uint64 x = if leb (2 ^ 31) (x % 2 ^ 32) then x % 2 ^ 32 + (2 ^ 64 - 2 ^ 32) else x % 2 ^ 32

unfoldable pub get_high32 : ℕ → ℕ
get_high32 v = int32_to_uint64 (v / 2 ^ 32)

unfoldable pub get_low32 : ℕ → ℕ
get_low32 v = int32_to_uint64 (bit_and v 0xffff_ffff)

-- The value is an `int32_t`: the caller's argument is cut to 32 bits.
unfoldable pub set_high32 : ℕ → ℕ → ℕ
set_high32 out value = bit_or (bit_and out 0xffff_ffff) (value % 2 ^ 32 * 2 ^ 32)

unfoldable pub set_low32 : ℕ → ℕ → ℕ
set_low32 out value = bit_or (bit_and out 0xffff_ffff_0000_0000) (int32_to_uint64 value)
