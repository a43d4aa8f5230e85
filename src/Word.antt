-- ===== src/Word.antt =====
-- The operators of C++ on `int32_t`, `uint32_t`, `int64_t` and `uint64_t`. A value of `w` bits is a
-- number below 2 ^ w, a signed one its bit pattern; signed overflow wraps around.
pub mod Division
use rafi_1st.Base.{
  ℕ, ◌+◌, ◌-◌, ◌*◌, ◌/◌, ◌%◌, ◌^◌, Bool, leb, ltb, ◌==◌, not, if◌then◌else◌, Result, ok, require,
  ◌>>◌, undefined,
}

abbrev pub is_negative : ℕ → ℕ → Bool
is_negative w a = leb (2 ^ (w - 1)) a

abbrev pub negate : ℕ → ℕ → ℕ
negate w a = (2 ^ w - a) % 2 ^ w

abbrev pub wrap_add : ℕ → ℕ → ℕ → ℕ
wrap_add w a b = (a + b) % 2 ^ w

abbrev pub wrap_sub : ℕ → ℕ → ℕ → ℕ
wrap_sub w a b = (a + (2 ^ w - b)) % 2 ^ w

abbrev pub wrap_mul : ℕ → ℕ → ℕ → ℕ
wrap_mul w a b = a * b % 2 ^ w

-- `<` on signed values
abbrev pub signed_lt : ℕ → ℕ → ℕ → Bool
signed_lt w a b = ltb ((a + 2 ^ (w - 1)) % 2 ^ w) ((b + 2 ^ (w - 1)) % 2 ^ w)

abbrev pub of_bool : Bool → ℕ
of_bool b = if b then 1 else 0

-- `<<` and `>>`: a count of the width or more, or a negative one, is undefined.
abbrev pub shift_left : ℕ → ℕ → ℕ → Result ℕ
shift_left w a count = require (ltb count w) undefined >> ok (a * 2 ^ count % 2 ^ w)

abbrev pub shift_right : ℕ → ℕ → ℕ → Result ℕ
shift_right w a count = require (ltb count w) undefined >> ok (a / 2 ^ count)

-- `>>` on signed values copies the sign.
abbrev pub sign_fill : ℕ → ℕ → ℕ → ℕ
sign_fill w a count = if is_negative w a then 2 ^ w - 2 ^ (w - count) else 0

abbrev pub signed_shift_right : ℕ → ℕ → ℕ → Result ℕ
signed_shift_right w a count =
    require (ltb count w) undefined >> ok (a / 2 ^ count + sign_fill w a count)

-- `/` and `%` on signed values round towards zero; the callers test for a divisor of 0.
abbrev pub magnitude : ℕ → ℕ → ℕ
magnitude w a = if is_negative w a then 2 ^ w - a else a

unfoldable pub signed_div : ℕ → ℕ → ℕ → ℕ
signed_div w a b =
    let q = magnitude w a / magnitude w b in
    if is_negative w a
    then (if is_negative w b then q else negate w q)
    else (if is_negative w b then negate w q else q)

unfoldable pub signed_rem : ℕ → ℕ → ℕ → ℕ
signed_rem w a b =
    let r = magnitude w a % magnitude w b in if is_negative w a then negate w r else r

-- A signed value of `v` bits as one of `w` bits
abbrev pub sign_cast : ℕ → ℕ → ℕ → ℕ
sign_cast v w a = if is_negative v a then a + (2 ^ w - 2 ^ v) else a

-- Division by 0 is undefined.
abbrev pub checked_div : ℕ → ℕ → ℕ → Result ℕ
checked_div w a b = require (not (b == 0)) undefined >> ok (signed_div w a b)

abbrev pub checked_rem : ℕ → ℕ → ℕ → Result ℕ
checked_rem w a b = require (not (b == 0)) undefined >> ok (signed_rem w a b)

abbrev pub checked_udiv : ℕ → ℕ → Result ℕ
checked_udiv a b = require (not (b == 0)) undefined >> ok (a / b)

abbrev pub checked_urem : ℕ → ℕ → Result ℕ
checked_urem a b = require (not (b == 0)) undefined >> ok (a % b)
