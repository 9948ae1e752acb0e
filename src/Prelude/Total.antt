-- ===== src/Prelude/Total.antt =====
-- Code that may fault: `none` is undefined behaviour, such as an access out of bounds, or a loop
-- that has used up its fuel. `Returns P m` is total correctness of `m`.
use mathlib.Core.Path.{◌≡◌, refl}
use mathlib.Core.Bool.{Bool, true, false}
use mathlib.Core.Option.{Option, none, some}
use practice_project.Prelude.Tests.{if◌then◌else◌}

infixl 5 ◌>>=◌
abbrev pub ◌>>=◌ {ℓ κ} : {A : Type ℓ} {B : Type κ} → Option A → (A → Option B) → Option B
none >>= f = none
some a >>= f = f a

-- `m` returns a value, and the value satisfies `P`.
pub data Returns {A : Type 0} (P : A → Type 0) : Option A → Type 0 where
  returns : {a : A} → P a → Returns P (some a)

module _ {A : Type 0} {P : A → Type 0} where
  pub Returns-bind :
      {B : Type 0} {Q : B → Type 0} {m : Option A} {f : A → Option B}
      → Returns P m
      → ((a : A) → P a → Returns Q (f a))
      → Returns Q (m >>= f)
  Returns-bind (returns p) next = next _ p

  pub Returns-mono :
      {Q : A → Type 0} {m : Option A} → Returns P m → ((a : A) → P a → Q a) → Returns Q m
  Returns-mono (returns p) weaken = returns (weaken _ p)

  pub Returns-if :
      (b : Bool) {m n : Option A}
      → (b ≡ true → Returns P m)
      → (b ≡ false → Returns P n)
      → Returns P (if b then m else n)
  Returns-if true yes_case no_case = yes_case refl
  Returns-if false yes_case no_case = no_case refl

  -- The value, its equation and its property.
  pub Returns-value : {m : Option A} → Returns P m → (a : A) × (m ≡ some a) × P a
  Returns-value (returns {a} p) = (a, refl, p)
