-- ===== src/Prelude/Fallible.antt =====
-- Fallible calls: Go's `(value, error)` as a sum, with `do`. A call that returns only an `error` is
-- a `Result E (Unit {0})`.
use mathlib.Core.Path.{◌≡◌, refl}
use mathlib.Core.Logic.{◌↔◌, ◌⊎◌, inl, inr}
use mathlib.Core.Option.{Option, none, some}
use mathlib.Core.Bool.{Bool, true, false}

pub data Result (E A : Type 0) : Type 0 where
  ok : A → Result E A
  err : E → Result E A

module _ {E : Type 0} where
  -- `if c { return e }`
  abbrev pub fail_if : Bool → E → Result E (Unit {0})
  fail_if false e = ok tt
  fail_if true e = err e

  infixl 5 ◌>>=◌ ◌>>◌
  abbrev pub ◌>>=◌ : {X Y : Type 0} → Result E X → (X → Result E Y) → Result E Y
  err e >>= next = err e
  ok x >>= next = next x

  -- Where a sequence succeeds, so does its first call, and the rest on what that call gave.
  pub >>=-eq-ok :
      {X Y : Type 0} (first : Result E X) (next : X → Result E Y) {y : Y}
      → (first >>= next) ≡ ok y
      → (x : X) × (first ≡ ok x) × (next x ≡ ok y)
  >>=-eq-ok (err e) next eq = cc
  >>=-eq-ok (ok x) next eq = (x, refl, eq)

  pub >>=-cong :
      {X Y : Type 0} (first : Result E X) (f g : X → Result E Y)
      → ((x : X) → first ≡ ok x → f x ≡ g x)
      → (first >>= f) ≡ (first >>= g)
  >>=-cong (err e) f g same = refl
  >>=-cong (ok x) f g same = same x refl

  pub >>=-ok : {X : Type 0} (first : Result E X) → (first >>= ok) ≡ first
  >>=-ok (err e) = refl
  >>=-ok (ok x) = refl

  pub >>=_assoc :
      {X Y Z : Type 0} (first : Result E X) (f : X → Result E Y) (g : Y → Result E Z)
      → ((first >>= f) >>= g) ≡ (first >>= λ x. f x >>= g)
  >>=_assoc (err e) f g = refl
  >>=_assoc (ok x) f g = refl

  abbrev pub ◌>>◌ : {Y : Type 0} → Result E (Unit {0}) → Result E Y → Result E Y
  first >> rest = first >>= λ _. rest

  pub >>-ok_iff :
      {Y : Type 0} (first : Result E (Unit {0})) (rest : Result E Y) (y : Y)
      → ((first >> rest) ≡ ok y) ↔ ((first ≡ ok tt) × (rest ≡ ok y))
  >>-ok_iff (err e) rest y = (λ h. cc, λ v. cc)
  >>-ok_iff (ok u) rest y = (λ h. (refl, h), λ v. v.1)

-- the value, or an error where there is none
abbrev pub or_fail : {E A : Type 0} → Option A → E → Result E A
or_fail none e = err e
or_fail (some a) e = ok a

-- `fmt.Errorf("…: %w", err)`
abbrev pub wrap_err : {E F A : Type 0} → (E → F) → Result E A → Result F A
wrap_err f (ok a) = ok a
wrap_err f (err e) = err (f e)

pub wrap_err-ok :
    {E F A : Type 0} (f : E → F) (r : Result E A) {a : A} → wrap_err f r ≡ ok a → r ≡ ok a
wrap_err-ok f (ok a) e = cc
wrap_err-ok f (err x) e = cc

pub or_fail-ok : {E A : Type 0} (o : Option A) (e : E) {a : A} → or_fail o e ≡ ok a → o ≡ some a
or_fail-ok none e h = cc h
or_fail-ok (some x) e h = cc h

pub ok-inj : {E A : Type 0} {a b : A} → ◌≡◌ {A = Result E A} (ok a) (ok b) → a ≡ b
ok-inj e = cc e

pub Result-cases :
    {E A : Type 0} (r : Result E A) → ((a : A) × (r ≡ ok a)) ⊎ ((e : E) × (r ≡ err e))
Result-cases (ok a) = inl (a, refl)
Result-cases (err e) = inr (e, refl)
