-- ===== src/Base/Tests.antt =====
-- Boolean tests on numbers, and the case splits that keep their equation.
use Prim.Native.Nat.{ℕ, ◌≤◌, ◌<◌, compare, Ordering}
use mathlib.Core.Path.{◌≡◌, refl}
use mathlib.Core.Logic.{◌↔◌, ◌⊎◌, inl, inr}
use mathlib.Core.Bool.{Bool, true, false}
use mathlib.Core.List.{List, [], ◌∷◌}
use native.Mathlib.Omega.{arith}

abbrev pub ltb : ℕ → ℕ → Bool
ltb a b = elim (compare a b) [ Ordering.lt ↦ true | _ ↦ false ]

abbrev pub leb : ℕ → ℕ → Bool
leb a b = elim (compare a b) [ Ordering.gt ↦ false | _ ↦ true ]

infix 50 ◌==◌
abbrev pub ◌==◌ : ℕ → ℕ → Bool
a == b = elim (compare a b) [ Ordering.eq ↦ true | _ ↦ false ]

infix 1 if◌then◌else◌
abbrev pub if◌then◌else◌ {ℓ} : {A : Type ℓ} → Bool → A → A → A
if true then x else y = x
if false then x else y = y

pub Bool-cases : (b : Bool) → (b ≡ true) ⊎ (b ≡ false)
Bool-cases true = inl refl
Bool-cases false = inr refl

pub ltb→lt : (a b : ℕ) → ltb a b ≡ true → a < b
ltb→lt a b h = ground arith

pub leb→le : (a b : ℕ) → leb a b ≡ true → a ≤ b
leb→le a b h = ground arith

pub le→leb : (a b : ℕ) → a ≤ b → leb a b ≡ true
le→leb a b h = ground arith

pub ==_iff : (a b : ℕ) → ((a == b) ≡ true) ↔ (a ≡ b)
==_iff a b = ground arith

-- A C `switch` over numbers: the value of the first case that fits, or the default.
abbrev pub switch {ℓ} : {A : Type ℓ} → ℕ → List (ℕ × A) → A → A
switch a [] other = other
switch a ((k, v) ∷ cases) other = if a == k then v else switch a cases other

-- A property of every case's value, and of what a `switch` picks.
abbrev pub AllCases {ℓ κ} : {A : Type ℓ} → (A → Type κ) → List (ℕ × A) → Type κ
AllCases P [] = Unit
AllCases P ((k, v) ∷ cases) = P v × AllCases P cases

pub AllCases-switch {ℓ κ} :
    {A : Type ℓ} (P : A → Type κ) (a : ℕ) (cases : List (ℕ × A)) (other : A)
    → AllCases P cases
    → P other
    → P (switch a cases other)
AllCases-switch P a [] other h d = d
AllCases-switch P a ((k, v) ∷ cases) other h d =
    pick (a == k) h.0 (AllCases-switch P a cases other h.1 d)
  where
    pick : (b : Bool) → P v → P (switch a cases other) → P (if b then v else switch a cases other)
    pick true x y = x
    pick false x y = y
