-- ===== src/Base/Outcomes.antt =====
-- The outcome of code that returns a `Result` and may panic (`expect`, an index out of bounds).
use mathlib.Core.Path.{◌≡◌, refl}
use mathlib.Core.Logic.{◌⊎◌, inl, inr}
use mathlib.Core.Bool.{Bool, true, false}
use mathlib.Core.Option.{Option, none, some}

pub data Outcome {ℓ κ} (E : Type ℓ) (A : Type κ) : Type (ℓ ⊔ κ) where
  ok : A → Outcome E A
  err : E → Outcome E A
  panic : Outcome E A

infixl 5 ◌>>=◌ ◌>>◌
abbrev pub ◌>>=◌ {ℓ κ μ} :
    {E : Type ℓ} {X : Type κ} {Y : Type μ} → Outcome E X → (X → Outcome E Y) → Outcome E Y
panic >>= next = panic
err e >>= next = err e
ok x >>= next = next x

abbrev pub ◌>>◌ {ℓ κ} : {E : Type ℓ} {Y : Type κ} → Outcome E (Unit {0}) → Outcome E Y → Outcome E Y
first >> next = first >>= λ _. next

-- `if !test { return Err(e) }`
abbrev pub ensure {ℓ} : {E : Type ℓ} → Bool → E → Outcome E (Unit {0})
ensure true e = ok tt
ensure false e = err e

-- `o.ok_or(e)?`
abbrev pub ok_or {ℓ κ} : {E : Type ℓ} {A : Type κ} → Option A → E → Outcome E A
ok_or none e = err e
ok_or (some a) e = ok a

-- `o.expect(..)`
abbrev pub expect {ℓ κ} : {E : Type ℓ} {A : Type κ} → Option A → Outcome E A
expect none = panic
expect (some a) = ok a

-- Where a chain succeeds, its first step did.
pub >>=-eq-ok {ℓ κ μ} :
    {E : Type ℓ} {X : Type κ} {Y : Type μ} {y : Y} (first : Outcome E X) (next : X → Outcome E Y)
    → (first >>= next) ≡ ok y
    → (x : X) × (first ≡ ok x) × (next x ≡ ok y)
>>=-eq-ok panic next h = cc
>>=-eq-ok (err e) next h = cc
>>=-eq-ok (ok x) next h = (x, refl, h)

pub Outcome-cases {ℓ κ} :
    {E : Type ℓ} {A : Type κ} (o : Outcome E A)
    → ((a : A) × (o ≡ ok a)) ⊎ (((e : E) × (o ≡ err e)) ⊎ (o ≡ panic))
Outcome-cases (ok a) = inl (a, refl)
Outcome-cases (err e) = inr (inl (e, refl))
Outcome-cases panic = inr (inr refl)

pub ok-injective {ℓ κ} :
    {E : Type ℓ} {A : Type κ} {a b : A} → ◌≡◌ {A = Outcome E A} (ok a) (ok b) → a ≡ b
ok-injective h = cc

pub expect-eq-ok {ℓ κ} :
    {E : Type ℓ} {A : Type κ} {a : A} (o : Option A) → expect {E = E} o ≡ ok a → o ≡ some a
expect-eq-ok none h = cc
expect-eq-ok (some b) h = cc

pub ok_or-eq-ok {ℓ κ} :
    {E : Type ℓ} {A : Type κ} {a : A} (o : Option A) (e : E) → ok_or o e ≡ ok a → o ≡ some a
ok_or-eq-ok none e h = cc
ok_or-eq-ok (some b) e h = cc

pub ensure-eq-ok {ℓ} : {E : Type ℓ} {u : Unit {0}} (b : Bool) (e : E) → ensure b e ≡ ok u → b ≡ true
ensure-eq-ok true e h = refl
ensure-eq-ok false e h = cc
