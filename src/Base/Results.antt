-- ===== src/Base/Results.antt =====
-- The exception that the application raises, as a value, and the sequencing of fallible steps.
use Prim.Native.Nat.{ℕ}
use Prim.Native.String.{String}
use mathlib.Core.Path.{◌≡◌, refl, subst}
use mathlib.Core.Bool.{Bool, true, false}
use mathlib.Core.Option.{Option, none, some}

-- `ProjectError(status, detail)` of features/project_management/projects/errors.py.
pub record ProjectError : Type 0 where
  pub status : ℕ
  pub detail : String

abbrev pub project_error : ℕ → String → ProjectError
project_error status detail = record { status = status; detail = detail }

pub data Result {ℓ} (A : Type ℓ) : Type ℓ where
  ok : A → Result A
  raise : ProjectError → Result A

-- Sequencing: an exception skips the rest.
module _ {ℓ κ} {A : Type ℓ} {B : Type κ} where
  infixl 5 ◌>>=◌
  abbrev pub ◌>>=◌ : Result A → (A → Result B) → Result B
  raise e >>= next = raise e
  ok value >>= next = next value

  -- A sequence that returns has returned from its first step.
  pub bind_returned :
      (step : Result A) (next : A → Result B) {result : B}
      → (step >>= next) ≡ ok result
      → (value : A) × (step ≡ ok value) × (next value ≡ ok result)
  bind_returned (raise e) next returned = cc
  bind_returned (ok value) next returned = (value, refl, returned)

infixl 5 ◌>>◌
abbrev pub ◌>>◌ {ℓ} : {B : Type ℓ} → Result (Unit {0}) → Result B → Result B
raise e >> rest = raise e
ok _ >> rest = rest

-- `if test: raise ProjectError(status, detail)`.
abbrev pub raise_if : Bool → ℕ → String → Result (Unit {0})
raise_if true status detail = raise (project_error status detail)
raise_if false status detail = ok tt

-- `if value is None: raise ProjectError(status, detail)`.
abbrev pub require {ℓ} : {A : Type ℓ} → Option A → ℕ → String → Result A
require none status detail = raise (project_error status detail)
require (some a) status detail = ok a

pub ok_injective {ℓ} : {A : Type ℓ} {a b : A} → ok a ≡ ok b → a ≡ b
ok_injective h = cc

-- A sequence that returns has passed its guard.
pub raise_if_passed {ℓ} :
    {B : Type ℓ} (test : Bool) (status : ℕ) (detail : String) (rest : Result B) {b : B}
    → (raise_if test status detail >> rest) ≡ ok b
    → (test ≡ false) × (rest ≡ ok b)
raise_if_passed true status detail rest h = cc
raise_if_passed false status detail rest h = (refl, h)

-- What a fallible step returns satisfies `P`; nothing is said of an exception.
module _ {ℓ κ} {A : Type ℓ} where
  abbrev pub Returns : (A → Type κ) → Result A → Type κ
  Returns P (ok a) = P a
  Returns P (raise e) = Unit

  pub returned : (P : A → Type κ) (m : Result A) {a : A} → Returns P m → m ≡ ok a → P a
  returned P (ok b) h e = subst P (ok_injective e) h
  returned P (raise x) h e = cc

  pub Returns-bind {μ} :
      {B : Type μ} (P : A → Type κ) (m : Result B) (next : B → Result A)
      → ((b : B) → m ≡ ok b → Returns P (next b))
      → Returns P (m >>= next)
  Returns-bind P (ok b) next h = h b refl
  Returns-bind P (raise e) next h = tt

  pub Returns-then :
      (P : A → Type κ) (step : Result (Unit {0})) (rest : Result A)
      → (step ≡ ok tt → Returns P rest)
      → Returns P (step >> rest)
  Returns-then P (ok _) rest h = h refl
  Returns-then P (raise e) rest h = tt

  pub Returns-guard :
      (P : A → Type κ) (test : Bool) (status : ℕ) (detail : String) (rest : Result A)
      → (test ≡ false → Returns P rest)
      → Returns P (raise_if test status detail >> rest)
  Returns-guard P true status detail rest h = tt
  Returns-guard P false status detail rest h = h refl

pub require-some {ℓ} :
    {A : Type ℓ} (o : Option A) (status : ℕ) (detail : String) {a : A}
    → require o status detail ≡ ok a
    → o ≡ some a
require-some none status detail h = cc
require-some (some b) status detail h = cc
