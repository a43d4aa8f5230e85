-- ===== src/Base/Fallible.antt =====
-- The results of code that can throw. Every error of the emulator throws the one exception
-- `RafiEmuException` (include/rafi/emu/Macro.h); the constructors say which macro did. `assertion`
-- is a failed `assert`, and `indeterminate` the use of a variable that was never set, or of an
-- array element out of range. `undefined` is an operation that C++ leaves undefined, such as a
-- shift by the width or more, `bad_variant_access` is what `std::get` throws, and `exited` is
-- `std::exit`.
use mathlib.Core.Path.{◌≡◌, refl}
use mathlib.Core.Bool.{Bool, true, false}

pub data Fault : Type 0 where
  emu_error not_implemented assertion indeterminate undefined bad_variant_access exited : Fault

-- The value that the code returns, or what it throws
pub data Result {ℓ} (V : Type ℓ) : Type ℓ where
  throw : Fault → Result V
  ok : V → Result V

-- A check that throws unless the condition holds
abbrev pub require : Bool → Fault → Result (Unit {0})
require false fault = throw fault
require true fault = ok tt

-- The code that follows runs on the value, if there is one.
infixl 5 ◌>>=◌
abbrev pub ◌>>=◌ {κ ℓ} : {V : Type κ} {W : Type ℓ} → Result V → (V → Result W) → Result W
throw fault >>= next = throw fault
ok v >>= next = next v

infixl 5 ◌>>◌
abbrev pub ◌>>◌ {ℓ} : {W : Type ℓ} → Result (Unit {0}) → Result W → Result W
check >> next = check >>= λ _. next

-- If code returns, its first part did.
pub >>=-eq-ok {κ ℓ} :
    {V : Type κ} {W : Type ℓ} (first : Result V) (next : V → Result W) {w : W}
    → (first >>= next) ≡ ok w
    → (v : V) × (first ≡ ok v) × (next v ≡ ok w)
>>=-eq-ok (throw fault) next e = cc
>>=-eq-ok (ok v) next e = (v, refl, e)
