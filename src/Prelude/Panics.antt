-- ===== src/Prelude/Panics.antt =====
-- Runs of code that may panic (`expect`, `unwrap`, `assert!`, an index out of bounds).
use mathlib.Core.Path.{◌≡◌, refl, subst}
use mathlib.Core.Bool.{Bool, true, false}
use mathlib.Core.Option.{Option, none, some}
use Prim.{Unit, tt}
use pomelo.Prelude.Tests.{if◌then◌else◌}

pub data Run {ℓ} (A : Type ℓ) : Type ℓ where
  ok : A → Run A
  panic : Run A

infixl 5 ◌>>=◌ ◌>>◌
abbrev pub ◌>>=◌ {ℓ κ} : {A : Type ℓ} {B : Type κ} → Run A → (A → Run B) → Run B
ok a >>= f = f a
panic >>= f = panic

abbrev pub ◌>>◌ {ℓ} : {B : Type ℓ} → Run (Unit {0}) → Run B → Run B
m >> k = m >>= λ _. k

-- `assert!`.
abbrev pub assert : Bool → Run (Unit {0})
assert true = ok tt
assert false = panic

-- `Option::expect` and `Option::unwrap`.
abbrev pub expect {ℓ} : {A : Type ℓ} → Option A → Run A
expect none = panic
expect (some a) = ok a

-- The run ends without a panic, in a value with the property.
pub data Returns {ℓ κ} {A : Type ℓ} (P : A → Type κ) : Run A → Type (ℓ ⊔ κ) where
  returns : {a : A} → P a → Returns P (ok a)

pub Returns-bind {ℓ κ μ ν} :
    {A : Type ℓ} {B : Type μ} {P : A → Type κ} {Q : B → Type ν} {m : Run A} {f : A → Run B}
    → Returns P m
    → ((a : A) → P a → Returns Q (f a))
    → Returns Q (m >>= f)
Returns-bind (returns p) next = next _ p

pub Returns-mono {ℓ κ ν} :
    {A : Type ℓ} {P : A → Type κ} {Q : A → Type ν} {m : Run A}
    → Returns P m
    → ((a : A) → P a → Q a)
    → Returns Q m
Returns-mono (returns p) weaken = returns (weaken _ p)

pub Returns-value {ℓ κ} :
    {A : Type ℓ} {P : A → Type κ} {m : Run A} → Returns P m → (a : A) × (m ≡ ok a) × P a
Returns-value (returns {a} p) = (a, refl, p)

-- A run that panics, or returns a value with the property.
pub data OnReturn {ℓ κ} {A : Type ℓ} (P : A → Type κ) : Run A → Type (ℓ ⊔ κ) where
  panics : OnReturn P panic
  returned : {a : A} → P a → OnReturn P (ok a)

pub OnReturn-bind {ℓ κ μ ν} :
    {A : Type ℓ} {B : Type μ} {P : A → Type κ} {Q : B → Type ν} (m : Run A) {f : A → Run B}
    → OnReturn P m
    → ((a : A) → P a → OnReturn Q (f a))
    → OnReturn Q (m >>= f)
OnReturn-bind (ok a) (returned h) next = next a h
OnReturn-bind panic panics next = panics

pub after {ℓ μ ν} :
    {A : Type ℓ} {B : Type μ} {Q : B → Type ν} (m : Run A) {f : A → Run B}
    → ((a : A) → OnReturn Q (f a))
    → OnReturn Q (m >>= f)
after (ok a) next = next a
after panic next = panics

pub either :
    {A : Type 0} {Q : A → Type 0} (b : Bool) (x y : Run A)
    → OnReturn Q x
    → OnReturn Q y
    → OnReturn Q (if b then x else y)
either true x y hx hy = hx
either false x y hx hy = hy

pub ok-inj {ℓ} : {A : Type ℓ} {a b : A} → ok a ≡ ok b → a ≡ b
ok-inj e = cc

panic-ne-ok {ℓ} : {A : Type ℓ} {a : A} → panic ≡ ok a → ⊥
panic-ne-ok e = cc

-- What holds of a run that returns holds of its value.
pub Returns-ok {ℓ κ} :
    {A : Type ℓ} {P : A → Type κ} {m : Run A} {a : A} → Returns P m → m ≡ ok a → P a
Returns-ok {P} (returns h) e = subst P (ok-inj e) h

pub OnReturn-ok {ℓ κ} :
    {A : Type ℓ} {P : A → Type κ} {m : Run A} {a : A} → OnReturn P m → m ≡ ok a → P a
OnReturn-ok {P} (returned h) e = subst P (ok-inj e) h
OnReturn-ok panics e = absurd (panic-ne-ok e)
