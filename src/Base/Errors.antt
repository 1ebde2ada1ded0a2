-- ===== src/Base/Errors.antt =====
-- internal/platform/apperror: the typed errors that the store returns, without their message text.
use Prim.Native.String.{String}
use mathlib.Core.Path.{◌≡◌, refl}

-- NotFoundError, ConflictError, ValidationError, ForbiddenError, UnavailableError, InternalError.
pub data AppError : Type 0 where
  not_found : String → AppError
  conflict validation forbidden unavailable internal : AppError

-- A value and a nil error, or an error.
pub data Fallible {ℓ} (A : Type ℓ) : Type ℓ where
  err : AppError → Fallible A
  ok : A → Fallible A

-- `if err != nil { return err }` between two calls.
infixl 5 ◌>>=◌
abbrev pub ◌>>=◌ {ℓ κ} : {A : Type ℓ} {B : Type κ} → Fallible A → (A → Fallible B) → Fallible B
call >>= next = elim call [ err e ↦ err e | ok a ↦ next a ]

-- A property of the value, where there is no error.
abbrev pub OnOk {ℓ κ} : {A : Type ℓ} → (A → Type κ) → Fallible A → Type κ
OnOk P (err e) = Unit
OnOk P (ok a) = P a

pub OnOk-bind {ℓ κ μ} :
    {A : Type ℓ} {B : Type κ} (P : B → Type μ) (call : Fallible A) (next : A → Fallible B)
    → ((a : A) → call ≡ ok a → OnOk P (next a))
    → OnOk P (call >>= next)
OnOk-bind P (err e) next h = tt
OnOk-bind P (ok a) next h = h a refl

-- What holds of the first call's value gives what holds of the second's.
pub OnOk-chain {ℓ κ μ ν} :
    {A : Type ℓ} {B : Type κ} (P : A → Type μ) (Q : B → Type ν) (call : Fallible A)
    (next : A → Fallible B)
    → OnOk P call
    → ((a : A) → P a → OnOk Q (next a))
    → OnOk Q (call >>= next)
OnOk-chain P Q (err e) next h k = tt
OnOk-chain P Q (ok a) next h k = k a h

pub OnOk-map {ℓ κ μ} :
    {A : Type ℓ} (P : A → Type κ) (Q : A → Type μ) (call : Fallible A)
    → OnOk P call
    → ((a : A) → P a → Q a)
    → OnOk Q call
OnOk-map P Q (err e) h f = tt
OnOk-map P Q (ok a) h f = f a h

pub OnOk-both {ℓ κ μ} :
    {A : Type ℓ} (P : A → Type κ) (Q : A → Type μ) (call : Fallible A)
    → OnOk P call
    → OnOk Q call
    → OnOk (λ a. P a × Q a) call
OnOk-both P Q (err e) h k = tt
OnOk-both P Q (ok a) h k = (h, k)
