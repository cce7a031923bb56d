-- ===== src/Base/Errors.antt =====
-- Python exceptions as values. An exception is its class and the fixed part of its message.
use Prim.Native.String.{String}
use mathlib.Core.Path.{◌≡◌, refl}
use mathlib.Core.Logic.{◌⊎◌, inl, inr}
use mathlib.Core.Bool.{Bool, true, false}
use dohwa_hermes_stack.Base.Tests.{if◌then◌else◌}

pub data Error : Type 0 where
  value_error : String → Error
  runtime_error : String → Error
  key_error : String → Error
  type_error : Error
  attribute_error : Error
  assertion_error : Error
  -- an integer that a column of SQLite does not hold
  overflow_error : Error
  -- `InvalidStateTransition`, a subclass of `ValueError`
  invalid_state_transition : Error
  -- a constraint of the schema or a trigger refuses a row
  integrity_error : String → Error

-- What a method returns, or the exception that it raises.
pub data Result {ℓ} (A : Type ℓ) : Type ℓ where
  err : Error → Result A
  ok : A → Result A

-- `if not test: raise error`.
abbrev pub require : Bool → Error → Result (Unit {0})
require true e = ok tt
require false e = err e

-- `if test: raise error`.
abbrev pub refuse : Bool → Error → Result (Unit {0})
refuse true e = err e
refuse false e = ok tt

infixl 5 ◌>>=◌ ◌>>◌
abbrev pub ◌>>=◌ {κ ℓ} : {B : Type κ} {A : Type ℓ} → Result B → (B → Result A) → Result A
err raised >>= next = err raised
ok value >>= next = next value

-- A check, and what goes on where it passes.
abbrev pub ◌>>◌ {ℓ} : {A : Type ℓ} → Result (Unit {0}) → Result A → Result A
check >> next = check >>= λ _. next

-- What succeeds in two parts succeeds in the first with a value, and in the second at that value.
pub >>=-eq-ok {κ ℓ} :
    {B : Type κ} {A : Type ℓ} (first : Result B) (next : B → Result A) {result : A}
    → (first >>= next) ≡ ok result
    → (value : B) × (first ≡ ok value) × (next value ≡ ok result)
>>=-eq-ok (err raised) next h = cc
>>=-eq-ok (ok value) next h = (value, refl, h)

pub Result-cases {ℓ} :
    {A : Type ℓ} (r : Result A) → ((raised : Error) × (r ≡ err raised)) ⊎ ((a : A) × (r ≡ ok a))
Result-cases (err raised) = inl (raised, refl)
Result-cases (ok a) = inr (a, refl)

-- One result has one value.
pub ok_injective {ℓ} : {A : Type ℓ} {a b : A} → (Result.ok a) ≡ ok b → a ≡ b
ok_injective h = cc

-- What succeeds goes on with its value.
pub >>=_step {κ ℓ} :
    {B : Type κ} {A : Type ℓ} {first : Result B} (next : B → Result A) {value : B}
    {result : Result A}
    → first ≡ ok value
    → next value ≡ result
    → (first >>= next) ≡ result
>>=_step next e h = rw e h

-- A property of a successful branch is proved in each branch.
pub if_ok {ℓ κ} :
    {A : Type ℓ} {P : Type κ} (b : Bool) (m n : Result A) {a : A}
    → (if b then m else n) ≡ ok a
    → (b ≡ true → m ≡ ok a → P)
    → (b ≡ false → n ≡ ok a → P)
    → P
if_ok true m n h p q = p refl h
if_ok false m n h p q = q refl h

-- What passes a check goes on.
pub require_ok {ℓ} :
    {B : Type ℓ} (b : Bool) (e : Error) (k : Result B) {a : B}
    → (require b e >> k) ≡ ok a
    → (b ≡ true) × (k ≡ ok a)
require_ok true e k h = (refl, h)
require_ok false e k h = cc

pub refuse_ok {ℓ} :
    {B : Type ℓ} (b : Bool) (e : Error) (k : Result B) {a : B}
    → (refuse b e >> k) ≡ ok a
    → (b ≡ false) × (k ≡ ok a)
refuse_ok true e k h = cc
refuse_ok false e k h = (refl, h)
