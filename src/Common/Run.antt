-- ===== src/Common/Run.antt =====
-- How a Go call ends: with a value, in a run-time panic, or without an end within the model's fuel.
use mathlib.Core.Path.{subst}
use gocore.Common.{if◌then◌else◌, ◌≡◌, refl, ap, Bool, true, false, Option, none, some}

pub data Run {ℓ} (A : Type ℓ) : Type ℓ where
  ok : A → Run A
  panic : Run A
  out_of_fuel : Run A

infixl 5 ◌>>=◌ ◌>>◌
abbrev pub ◌>>=◌ {ℓ κ} : {A : Type ℓ} {B : Type κ} → Run A → (A → Run B) → Run B
ok a >>= f = f a
panic >>= f = panic
out_of_fuel >>= f = out_of_fuel

abbrev pub ◌>>◌ {ℓ} : {B : Type ℓ} → Run (Unit {0}) → Run B → Run B
m >> k = m >>= λ _. k

-- A read of a slice, `a[i]`, panics out of range, and so does a nil pointer.
abbrev pub or_panic {ℓ} : {A : Type ℓ} → Option A → Run A
or_panic (some a) = ok a
or_panic none = panic

-- `panic` unless the test passes.
abbrev pub check : Bool → Run (Unit {0})
check true = ok tt
check false = panic

-- The run ends well, with a value that satisfies `P`: false of a panic and of a lack of fuel.
abbrev pub Returns {ℓ} : {A : Type ℓ} → (A → Type 0) → Run A → Type 0
Returns P (ok a) = P a
Returns P panic = ⊥
Returns P out_of_fuel = ⊥

pub Returns-inv {ℓ} :
    {A : Type ℓ} (P : A → Type 0) (r : Run A) → Returns P r → (a : A) × (r ≡ ok a) × P a
Returns-inv P (ok a) h = (a, refl, h)
Returns-inv P panic h = absurd h
Returns-inv P out_of_fuel h = absurd h

pub Returns-map {ℓ} :
    {A : Type ℓ} (P Q : A → Type 0) (r : Run A) → Returns P r → ((a : A) → P a → Q a) → Returns Q r
Returns-map P Q (ok a) h f = f a h
Returns-map P Q panic h f = h
Returns-map P Q out_of_fuel h f = h

-- A run of two parts that returns has a first part that returns.
pub >>=_inv {ℓ κ} :
    {A : Type ℓ} {B : Type κ} (m : Run A) (f : A → Run B) {b : B}
    → (m >>= f) ≡ ok b
    → (a : A) × (m ≡ ok a) × (f a ≡ ok b)
>>=_inv (ok a) f h = (a, refl, h)
>>=_inv panic f h = cc
>>=_inv out_of_fuel f h = cc

abbrev pub result_or {ℓ} : {A : Type ℓ} → A → Run A → A
result_or d (ok a) = a
result_or d panic = d
result_or d out_of_fuel = d

pub ok_inj {ℓ} : {A : Type ℓ} {a b : A} → ok a ≡ ok b → a ≡ b
ok_inj {a = a} h = ap (result_or a) h

pub Returns-bind {ℓ κ} :
    {A : Type ℓ} {B : Type κ} (P : A → Type 0) (Q : B → Type 0) (r : Run A) (f : A → Run B)
    → Returns P r
    → ((a : A) → P a → Returns Q (f a))
    → Returns Q (r >>= f)
Returns-bind P Q (ok a) f h g = g a h
Returns-bind P Q panic f h g = h
Returns-bind P Q out_of_fuel f h g = h

pub panic_ok {ℓ κ} : {A : Type ℓ} {B : Type κ} {a : A} → panic ≡ ok a → B
panic_ok h = cc

abbrev Holds {ℓ κ} : {A : Type ℓ} → (A → Type κ) → Run A → Type κ
Holds P (ok a) = P a
Holds P panic = Unit
Holds P out_of_fuel = Unit

-- If the run returns, its value satisfies `P`. A record, so that a goal shows the run it is about.
pub record Ensures {ℓ κ} {A : Type ℓ} (P : A → Type κ) (m : Run A) : Type κ where
  holds : Holds P m

module _ {ℓ κ} {A : Type ℓ} {P : A → Type κ} where
  pub Ensures-ok : {a : A} → P a → Ensures P (ok a)
  Ensures-ok h = record { holds = h }

  pub Ensures-panic : Ensures P panic
  Ensures-panic = record { holds = tt }

  Ensures-out_of_fuel : Ensures P out_of_fuel
  Ensures-out_of_fuel = record { holds = tt }

  pub Ensures-if :
      (b : Bool) {x y : Run A} → Ensures P x → Ensures P y → Ensures P (if b then x else y)
  Ensures-if true h k = h
  Ensures-if false h k = k

  pub Ensures-of_eq : {m : Run A} {a : A} → Ensures P m → m ≡ ok a → P a
  Ensures-of_eq {m = ok b} h e = subst P (ok_inj e) h.holds
  Ensures-of_eq {m = panic} h e = panic_ok e
  Ensures-of_eq {m = out_of_fuel} h e = cc

-- A rule for each `do` statement: what is known of its value, or nothing.
module _ {ℓ κ μ} {A : Type ℓ} {B : Type κ} {Q : B → Type μ} where
  pub Ensures-bind {ν} :
      (P : A → Type ν) (m : Run A) {f : A → Run B}
      → Ensures P m
      → ((a : A) → P a → Ensures Q (f a))
      → Ensures Q (m >>= f)
  Ensures-bind P (ok a) h g = g a h.holds
  Ensures-bind P panic h g = Ensures-panic
  Ensures-bind P out_of_fuel h g = Ensures-out_of_fuel

  pub Ensures-any : (m : Run A) {f : A → Run B} → ((a : A) → Ensures Q (f a)) → Ensures Q (m >>= f)
  Ensures-any (ok a) g = g a
  Ensures-any panic g = Ensures-panic
  Ensures-any out_of_fuel g = Ensures-out_of_fuel

pub Ensures-map {ℓ κ ν} :
    {A : Type ℓ} {P : A → Type κ} {Q : A → Type ν} (m : Run A)
    → Ensures P m
    → ((a : A) → P a → Q a)
    → Ensures Q m
Ensures-map (ok a) h f = Ensures-ok (f a h.holds)
Ensures-map panic h f = Ensures-panic
Ensures-map out_of_fuel h f = Ensures-out_of_fuel
