-- ===== src/Prelude/Raising.antt =====
-- A Python call that may raise: what it returns, or the exception, of a type `E` of the caller's.
use mathlib.Core.Path.{◌≡◌, refl}
use mathlib.Core.Logic.{◌⊎◌, inl, inr}
use mathlib.Core.Bool.{Bool, true, false}
use mathlib.Core.Option.{Option, none, some}
use native.Mathlib.Omega.{arith}

pub data Raising {ℓ} (E : Type 0) (A : Type ℓ) : Type ℓ where
  ok : A → Raising E A
  err : E → Raising E A

module _ {E : Type 0} where
  -- The exception of an optional value that is missing.
  abbrev pub or_raise {ℓ} : {A : Type ℓ} → Option A → E → Raising E A
  or_raise (some a) _ = ok a
  or_raise none why = err why

  -- `if not condition: raise why`
  abbrev pub guard : Bool → E → Raising E (Unit {0})
  guard condition why = elim condition [ true ↦ ok tt | false ↦ err why ]

  infixl 5 ◌>>=◌ ◌>>◌
  abbrev pub ◌>>=◌ {ℓ κ} : {A : Type ℓ} {B : Type κ} → Raising E A → (A → Raising E B) → Raising E B
  call >>= rest = elim call [ err why ↦ err why | ok a ↦ rest a ]

  abbrev pub ◌>>◌ {κ} : {B : Type κ} → Raising E (Unit {0}) → Raising E B → Raising E B
  check >> rest = elim check [ err why ↦ err why | ok _ ↦ rest ]

  -- A chain that returns went through its first step.
  pub bind-ok {ℓ κ} :
      {A : Type ℓ} {B : Type κ} (m : Raising E A) (f : A → Raising E B) (b : B)
      → (m >>= f) ≡ ok b
      → (a : A) × (m ≡ ok a) × (f a ≡ ok b)
  bind-ok (ok a) f b e = (a, refl, e)
  bind-ok (err x) f b e = ground arith

  pub guard-ok : (b : Bool) (e : E) (u : Unit {0}) → guard b e ≡ ok u → b ≡ true
  guard-ok true e u h = refl
  guard-ok false e u h = ground arith

  pub or_raise-ok {ℓ} :
      {A : Type ℓ} (o : Option A) (e : E) (a : A) → or_raise o e ≡ ok a → o ≡ some a
  or_raise-ok none e a h = ground arith
  or_raise-ok (some b) e a h = ground arith

  pub Result-cases {ℓ} :
      {A : Type ℓ} (r : Raising E A) → ((e : E) × (r ≡ err e)) ⊎ ((a : A) × (r ≡ ok a))
  Result-cases (ok a) = inr (a, refl)
  Result-cases (err e) = inl (e, refl)

  pub ok_inj {ℓ} : {A : Type ℓ} {a b : A} → ◌≡◌ {A = Raising E A} (ok a) (ok b) → a ≡ b
  ok_inj e = cc

  pub then-ok {κ} :
      {B : Type κ} (m : Raising E (Unit {0})) (k : Raising E B) (b : B)
      → (m >> k) ≡ ok b
      → (m ≡ ok tt) × (k ≡ ok b)
  then-ok (ok u) k b e = (refl, e)
  then-ok (err x) k b e = ground arith
