-- ===== src/Base/Completion.antt =====
-- How a runtime function ends: with a value, with a JavaScript exception, or by `abort`.
use mathlib.Core.Path.{◌≡◌, refl, ap, subst}
use mathlib.Core.Bool.{Bool, true, false}

-- `type_error` is `_ejs_throw_nativeerror_utf8 (EJS_TYPE_ERROR, …)`, and `aborted` is
-- `EJS_NOT_IMPLEMENTED ()`, a failed assertion, or a read of memory of the wrong kind.
pub data Outcome {ℓ} (A : Type ℓ) : Type ℓ where
  ok : A → Outcome A
  type_error aborted : Outcome A

infixl 5 ◌>>=◌ ◌>>◌
abbrev pub ◌>>=◌ {ℓ κ} : {A : Type ℓ} {B : Type κ} → Outcome A → (A → Outcome B) → Outcome B
ok a >>= f = f a
type_error >>= f = type_error
aborted >>= f = aborted

abbrev pub ◌>>◌ {ℓ} : {B : Type ℓ} → Outcome (Unit {0}) → Outcome B → Outcome B
m >> k = m >>= λ _. k

-- A test whose failure throws a TypeError.
abbrev pub require : Bool → Outcome (Unit {0})
require true = ok tt
require false = type_error

pub >>=_assoc {ℓ} :
    {A B C : Type ℓ} (m : Outcome A) (f : A → Outcome B) (g : B → Outcome C)
    → (m >>= f) >>= g ≡ m >>= (λ a. f a >>= g)
>>=_assoc (ok a) f g = refl
>>=_assoc type_error f g = refl
>>=_assoc aborted f g = refl

pub aborted_ne_ok {ℓ} : {A : Type ℓ} (a : A) → ¬ (aborted ≡ ok a)
aborted_ne_ok {A = A} a e =
    subst (λ (r : Outcome A). elim r [ ok b ↦ ⊥ | type_error ↦ ⊥ | aborted ↦ Unit {0} ]) e tt

pub type_error_ne_ok {ℓ} : {A : Type ℓ} (a : A) → ¬ (type_error ≡ ok a)
type_error_ne_ok {A = A} a e =
    subst (λ (r : Outcome A). elim r [ ok b ↦ ⊥ | type_error ↦ Unit {0} | aborted ↦ ⊥ ]) e tt

pub ok-injective {ℓ} : {A : Type ℓ} (a b : A) → ok a ≡ ok b → a ≡ b
ok-injective a b e = ap (λ r. elim r [ ok c ↦ c | type_error ↦ a | aborted ↦ a ]) e
