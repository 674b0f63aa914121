-- ===== src/Base/Catching.antt =====
-- Results that are a value with a property, or an exception that is caught.
use mathlib.Core.Path.{◌≡◌, refl}
use mathlib.Core.Logic.{◌⊎◌, inl, inr}
use mathlib.Core.Bool.{Bool, true, false}
use mathlib.Core.Option.{Option, none, some}
use native.Mathlib.Omega.{arith}
use simpletorrent.Base.Results.{
  Fault, Result, ok, fault, is_exception, or_else, or_fault, guard, ◌>>=◌,
}

pub ok-injective {ℓ} : {A : Type ℓ} {a b : A} → ok a ≡ ok b → a ≡ b
ok-injective h = ground arith

pub fault-ok {ℓ} : {A : Type ℓ} {bad : Fault} {a : A} → fault bad ≡ ok a → ⊥
fault-ok h = ground arith

pub Result-cases {ℓ} :
    {A : Type ℓ} (r : Result A) → ((bad : Fault) × (r ≡ fault bad)) ⊎ ((a : A) × (r ≡ ok a))
Result-cases (ok a) = inr (a, refl)
Result-cases (fault bad) = inl (bad, refl)

abbrev pub Yields {ℓ} : {A : Type ℓ} → (A → Type 0) → Result A → Type 0
Yields p (ok a) = p a
Yields p (fault bad) = is_exception bad ≡ true

abbrev pub Any {ℓ} : {A : Type ℓ} → A → Type 0
Any a = Unit {0}

module _ {ℓ κ} {A : Type ℓ} {B : Type κ} where
  pub Yields-bind :
      (p : A → Type 0) (q : B → Type 0) (r : Result A) (next : A → Result B)
      → Yields p r
      → ((a : A) → p a → Yields q (next a))
      → Yields q (r >>= next)
  Yields-bind p q (ok a) next h f = f a h
  Yields-bind p q (fault bad) next h f = h

module _ {ℓ} {A : Type ℓ} where
  pub Yields-mono :
      (p q : A → Type 0) (r : Result A) → ((a : A) → p a → q a) → Yields p r → Yields q r
  Yields-mono p q (ok a) f h = f a h
  Yields-mono p q (fault bad) f h = h

  pub Yields-or_else :
      (p : A → Type 0) (r : Result A) (handled : A)
      → Yields p r
      → p handled
      → (a : A) × (or_else r handled ≡ ok a) × p a
  Yields-or_else p (ok a) handled h k = (a, refl, h)
  Yields-or_else p (fault bad) handled h k = (handled, rw (h, or_else) refl, k)

  pub Yields-or_fault :
      (o : Option A) (bad : Fault) → is_exception bad ≡ true → Yields Any (or_fault o bad)
  Yields-or_fault none bad h = h
  Yields-or_fault (some a) bad h = tt

pub Yields-guard : (b : Bool) (bad : Fault) → is_exception bad ≡ true → Yields Any (guard b bad)
Yields-guard true bad h = tt
Yields-guard false bad h = h
