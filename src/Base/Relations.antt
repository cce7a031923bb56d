-- ===== src/Base/Relations.antt =====
-- Properties of every pair of rows: of one table, and of two.
use Prim.Native.Nat.{ℕ}
use mathlib.Core.Path.{◌≡◌}
use mathlib.Core.Logic.{◌≢◌, ◌⊎◌, inl, inr}
use mathlib.Core.Bool.{Bool, true, false, ◌&&◌}
use mathlib.Core.Option.{some}
use mathlib.Core.List.{List, [], ◌∷◌, ◌++◌, map}
use native.Mathlib.Omega.{arith}
use dohwa_hermes_stack.Base.Tests.{◌==◌, Bool-cases, Option-cases}
use dohwa_hermes_stack.Base.Lists.{All, All-map, All-imp, All-append}
use dohwa_hermes_stack.Base.Rows.{
  find_row, first_row, first_row-All, update_if, update_rows, count_rows, count_rows_miss,
}

-- Every row of one table is related to every row of another.
abbrev pub Pairs {ℓ κ μ} : {A : Type ℓ} {B : Type κ} → (A → B → Type μ) → List A → List B → Type μ
Pairs R xs ys = All (λ x. All (R x) ys) xs

-- Every row is related to every later row.
abbrev pub Apart {ℓ κ} : {A : Type ℓ} → (A → A → Type κ) → List A → Type κ
Apart R [] = Unit
Apart R (x ∷ xs) = All (R x) xs × Apart R xs

-- No two rows have one key.
abbrev pub UniqueKeys {ℓ} : {A : Type ℓ} → (A → ℕ) → List A → Type 0
UniqueKeys key = Apart (λ x y. key x ≢ key y)

module _ {ℓ κ μ ν} {A : Type ℓ} {B : Type κ} where
  -- Updates of both tables that keep the relation row by row keep it for the tables.
  pub Pairs-update :
      (R : A → B → Type μ) (S : A → B → Type ν) (p : A → Bool) (f : A → A) (q : B → Bool)
      (g : B → B)
      → ((x : A) (y : B) → R x y → S (update_if p f x) (update_if q g y))
      → (xs : List A) (ys : List B) → Pairs R xs ys
      → Pairs S (update_rows p f xs) (update_rows q g ys)
  unfolding update_rows
  Pairs-update R S p f q g h xs ys a =
      All-map _ _ (update_if p f) (λ x r. All-map _ _ (update_if q g) (λ y. h x y) ys r) xs a

module _ {ℓ κ μ ν} {A : Type ℓ} {B : Type κ} where
  pub Pairs-imp :
      (R : A → B → Type μ) (S : A → B → Type ν)
      → ((x : A) (y : B) → R x y → S x y)
      → (xs : List A) (ys : List B) → Pairs R xs ys
      → Pairs S xs ys
  Pairs-imp R S h xs ys a = All-imp _ _ (λ x r. All-imp _ _ (h x) ys r) xs a

module _ {ℓ κ μ} {A : Type ℓ} where
  pub Apart-map :
      (R : A → A → Type κ) (S : A → A → Type μ) (f : A → A)
      → ((x y : A) → R x y → S (f x) (f y))
      → (xs : List A) → Apart R xs
      → Apart S (map f xs)
  Apart-map R S f h [] a = tt
  Apart-map R S f h (x ∷ xs) a = (All-map _ _ f (λ y. h x y) xs a.0, Apart-map R S f h xs a.1)

module _ {ℓ κ} {A : Type ℓ} where
  pub Apart-update :
      (R : A → A → Type κ) (p : A → Bool) (f : A → A)
      → ((x y : A) → R x y → R (update_if p f x) (update_if p f y))
      → (xs : List A) → Apart R xs
      → Apart R (update_rows p f xs)
  unfolding update_rows
  Apart-update R p f = Apart-map R R (update_if p f)

  -- A row may be added at the end if every row is related to it.
  pub Apart-append :
      (R : A → A → Type κ) (xs : List A) (y : A)
      → Apart R xs
      → All (λ x. R x y) xs
      → Apart R (xs ++ y ∷ [])
  Apart-append R [] y a b = (tt, tt)
  Apart-append R (x ∷ xs) y a b =
      (All-append (R x) xs (y ∷ []) a.0 (b.0, tt), Apart-append R xs y a.1 b.1)

module _ {ℓ} {A : Type ℓ} where
  -- Where keys are unique, the row found by its key is the only row with the key.
  pub find_row-only :
      (key : A → ℕ) (k : ℕ) (xs : List A) {x : A}
      → UniqueKeys key xs
      → find_row (λ y. key y == k) xs ≡ some x
      → All (λ y. key y ≡ k → y ≡ x) xs
  unfolding find_row
  find_row-only key k [] u h = tt
  find_row-only key k (y ∷ ys) {x} u h = elim (Bool-cases (key y == k)) [
    | inl here ↦ (λ e. ground arith, All-imp _ _ (λ z ne e. absurd (ground (arith, ne))) ys u.0)
    | inr there ↦ (λ e. absurd (ground arith), find_row-only key k ys {x = x} u.1 (ground arith))
  ]

  -- A key counts a found row once.
  pub count_rows_unique :
      (key : A → ℕ) (p : A → Bool) (k : ℕ) (xs : List A) {x : A}
      → UniqueKeys key xs
      → find_row (λ y. key y == k) xs ≡ some x
      → p x ≡ true
      → count_rows (λ y. key y == k && p y) xs ≡ 1
  unfolding find_row count_rows
  count_rows_unique key p k [] u h q = absurd (cc)
  count_rows_unique key p k (y ∷ ys) {x} u h q = elim (Bool-cases (key y == k)) [
    | inl here ↦ ground (
      arith,
      count_rows_miss (λ z. key z == k && p z) ys (All-imp _ _ (λ z ne. ground (arith, ne)) ys u.0),
    )
    | inr there ↦ ground (arith, count_rows_unique key p k ys {x = x})
  ]

  first_row_split :
      (before : A → A → Bool) (p : A → Bool) (y : A) (ys : List A) (x : A)
      → first_row before p (y ∷ ys) ≡ some x
      → (y ≡ x) ⊎ (first_row before p ys ≡ some x)
  unfolding first_row
  first_row_split before p y ys x h = ground (arith, Option-cases (first_row before p ys))

  -- A row that some list holds at a key is found by it.
  pub find_row-key :
      (key : A → ℕ) (before : A → A → Bool) (p : A → Bool) (xs : List A) (x : A)
      → UniqueKeys key xs
      → first_row before p xs ≡ some x
      → find_row (λ y. key y == key x) xs ≡ some x
  unfolding find_row first_row
  find_row-key key before p [] x u h = absurd (cc)
  find_row-key key before p (y ∷ ys) x u h = elim (first_row_split before p y ys x h) [
    | inl same ↦ ground (arith, same)
    | inr e ↦
        let other = first_row-All (λ z. key y ≢ key z) before p ys x e u.0 in
        ground (arith, other, find_row-key key before p ys x u.1 e)
  ]

-- Two tables of the same length are related row by row.
abbrev pub Zip {ℓ κ} : {A : Type ℓ} {B : Type κ} → (A → B → Type 0) → List A → List B → Type 0
Zip R [] [] = Unit
Zip R [] (y ∷ ys) = ⊥
Zip R (x ∷ xs) [] = ⊥
Zip R (x ∷ xs) (y ∷ ys) = R x y × Zip R xs ys

module _ {ℓ μ} {A : Type ℓ} where
  -- An update relates the table before to the table after.
  pub Zip-update :
      (P : A → Type μ) (R : A → A → Type 0) (p : A → Bool) (f : A → A)
      → ((x : A) → P x → p x ≡ true → R x (f x))
      → ((x : A) → p x ≡ false → R x x)
      → (xs : List A) → All P xs
      → Zip R xs (update_rows p f xs)
  unfolding update_rows
  Zip-update P R p f changed kept [] a = tt
  Zip-update P R p f changed kept (x ∷ xs) a =
      let rest = Zip-update P R p f changed kept xs a.1 in
      elim (Bool-cases (p x)) [
        | inl e ↦ (rw e (changed x a.0 e), rest)
        | inr e ↦ (rw e (kept x e), rest)
      ]
