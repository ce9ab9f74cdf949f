-- ===== src/Prelude/Outcome.antt =====
-- The outcome of a Go function that returns an error beside its result: a value, an error, or a
-- run-time panic (a nil pointer that is read, or a slice bound out of range).
use mathlib.Core.Path.{◌≡◌, refl}
use mathlib.Core.Bool.{Bool, true, false}

pub data Outcome (Error : Type 0) (Value : Type 0) : Type 0 where
  ok : Value → Outcome Error Value
  err : Error → Outcome Error Value
  panic : Outcome Error Value

module _ {Error A B : Type 0} where
  infixl 1 ◌>>=◌ ◌>>◌
  abbrev pub ◌>>=◌ : Outcome Error A → (A → Outcome Error B) → Outcome Error B
  panic >>= go_on = panic
  err failure >>= go_on = err failure
  ok value >>= go_on = go_on value

  abbrev pub ◌>>◌ : Outcome Error A → Outcome Error B → Outcome Error B
  first >> second = first >>= λ ignored. second

-- `return err` behind a test.
abbrev pub guard : {Error : Type 0} → Bool → Error → Outcome Error (Unit {0})
guard false failure = err failure
guard true failure = ok tt

-- A postcondition: `P` of the value, `Q` of the error, `R` at a panic.
pub data Post {A E : Type 0} (P : A → Type 0) (Q : E → Type 0) (R : Type 0)
    : Outcome E A → Type 0 where
  returns : {a : A} → P a → Post P Q R (ok a)
  fails : {e : E} → Q e → Post P Q R (err e)
  panics : R → Post P Q R panic

module _ {A E : Type 0} {P : A → Type 0} {Q : E → Type 0} {R : Type 0} where
  infixl 1 ◌⟫◌
  -- The rule for a bind.
  pub ◌⟫◌ :
      {B : Type 0} {P' : B → Type 0} {r : Outcome E A} {f : A → Outcome E B}
      → Post P Q R r
      → ((a : A) → P a → Post P' Q R (f a))
      → Post P' Q R (r >>= f)
  panics at_panic ⟫ next = panics at_panic
  fails of_error ⟫ next = fails of_error
  returns {a} of_value ⟫ next = next a of_value

  pub weaken :
      {P' : A → Type 0} {r : Outcome E A} → ((a : A) → P a → P' a) → Post P Q R r → Post P' Q R r
  weaken g (returns h) = returns (g _ h)
  weaken g (fails h) = fails h
  weaken g (panics h) = panics h

  pub of_ok : {a : A} → Post P Q R (ok a) → P a
  of_ok (returns h) = h

  pub of_err : {e : E} → Post P Q R (err e) → Q e
  of_err (fails h) = h

  pub of_panic : Post P Q R panic → R
  of_panic (panics h) = h

-- A chain that returns a value has passed each of its parts.
module _ {Error A B : Type 0} {value : B} where
  pub >>=-eq-ok :
      (first : Outcome Error A) (go_on : A → Outcome Error B)
      → (first >>= go_on) ≡ ok value
      → (middle : A) × (first ≡ ok middle) × (go_on middle ≡ ok value)
  >>=-eq-ok panic go_on returned = cc
  >>=-eq-ok (err failure) go_on returned = cc
  >>=-eq-ok (ok middle) go_on returned = (middle, refl, returned)

module _ {Error B : Type 0} {value : B} where
  pub >>-eq-ok :
      (first : Outcome Error (Unit {0})) (second : Outcome Error B)
      → (first >> second) ≡ ok value
      → (first ≡ ok tt) × (second ≡ ok value)
  >>-eq-ok panic second returned = cc
  >>-eq-ok (err failure) second returned = cc
  >>-eq-ok (ok tt) second returned = (refl, returned)
