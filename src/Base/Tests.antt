-- ===== src/Base/Tests.antt =====
-- Boolean tests of Python and SQLite: comparison of numbers and of texts, and comparison of
-- optional values (`None`).
use Prim.Native.Nat.{ℕ, compare, Ordering}
use Prim.Native.String.{String, compare as compare_text}
use mathlib.Core.Path.{◌≡◌, refl}
use mathlib.Core.Logic.{◌↔◌, ◌⊎◌, inl, inr}
use mathlib.Core.Bool.{Bool, true, false}
use mathlib.Core.Option.{Option, none, some}
use native.Mathlib.Omega.{arith}
use text.Mathlib.Text.{◌==◌ as text_beq}
use text.Mathlib.TextEquality.{eq_iff}

abbrev pub ltb : ℕ → ℕ → Bool
ltb a b = elim (compare a b) [ Ordering.lt ↦ true | _ ↦ false ]

abbrev pub leb : ℕ → ℕ → Bool
leb a b = elim (compare a b) [ Ordering.gt ↦ false | _ ↦ true ]

infix 50 ◌==◌ ◌=t◌
abbrev pub ◌==◌ : ℕ → ℕ → Bool
a == b = elim (compare a b) [ Ordering.eq ↦ true | _ ↦ false ]

-- Equality of texts.
abbrev pub ◌=t◌ : String → String → Bool
a =t b = text_beq a b

-- `a < b` for texts, in the order of their characters' codes.
abbrev pub text_before : String → String → Bool
text_before a b = elim (compare_text a b) [ Ordering.lt ↦ true | _ ↦ false ]

infix 1 if◌then◌else◌
abbrev pub if◌then◌else◌ {ℓ} : {A : Type ℓ} → Bool → A → A → A
if true then x else y = x
if false then x else y = y

abbrev pub is_none {ℓ} : {A : Type ℓ} → Option A → Bool
is_none none = true
is_none (some _) = false

abbrev pub is_some {ℓ} : {A : Type ℓ} → Option A → Bool
is_some none = false
is_some (some _) = true

-- `a == b` in Python, where either may be `None`.
abbrev pub opt_eq {ℓ} : {A : Type ℓ} → (A → A → Bool) → Option A → Option A → Bool
opt_eq eq none none = true
opt_eq eq none (some _) = false
opt_eq eq (some _) none = false
opt_eq eq (some a) (some b) = eq a b

-- `a = b` in SQL: a comparison with NULL selects nothing.
abbrev pub sql_eq {ℓ} : {A : Type ℓ} → (A → A → Bool) → Option A → Option A → Bool
sql_eq eq (some a) (some b) = eq a b
sql_eq eq (some a) none = false
sql_eq eq none b = false

-- `COALESCE(a, b)`.
abbrev pub coalesce {ℓ} : {A : Type ℓ} → Option A → Option A → Option A
coalesce none b = b
coalesce (some a) b = some a

pub Bool-cases : (b : Bool) → (b ≡ true) ⊎ (b ≡ false)
Bool-cases true = inl refl
Bool-cases false = inr refl

pub Option-cases {ℓ} : {A : Type ℓ} (o : Option A) → (o ≡ none) ⊎ ((a : A) × (o ≡ some a))
Option-cases none = inl refl
Option-cases (some a) = inr (a, refl)

pub ==_iff : (a b : ℕ) → ((a == b) ≡ true) ↔ (a ≡ b)
==_iff a b = ground arith

pub =t_iff : (a b : String) → ((a =t b) ≡ true) ↔ (a ≡ b)
=t_iff a b = eq_iff a b

-- Equal optional texts are one.
pub opt_eq-text : (a b : Option String) → (opt_eq ◌=t◌ a b ≡ true) ↔ (a ≡ b)
opt_eq-text none none = ground arith
opt_eq-text none (some b) = ground arith
opt_eq-text (some a) none = ground arith
opt_eq-text (some a) (some b) = ground (arith, eq_iff a b)
