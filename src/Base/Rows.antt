-- ===== src/Base/Rows.antt =====
-- The statements that the program sends to SQLite, over a table as the list of its rows in the
-- order of insertion.
use Prim.Native.Nat.{ℕ, suc, ◌≤◌, max}
use mathlib.Core.Path.{◌≡◌, refl, subst}
use mathlib.Core.Logic.{inl, inr}
use mathlib.Core.Bool.{Bool, true, false, not, ◌&&◌}
use mathlib.Core.Option.{Option, none, some}
use mathlib.Core.List.{List, [], ◌∷◌, map}
use native.Mathlib.Omega.{arith}
use dohwa_hermes_stack.Base.Tests.{if◌then◌else◌, Bool-cases, Option-cases}
use dohwa_hermes_stack.Base.Lists.{any, All, All-map, All-imp, All-intro}

module _ {ℓ} {A : Type ℓ} where
  -- `SELECT ... WHERE p LIMIT 1`: the first row that passes.
  unfoldable pub find_row : (A → Bool) → List A → Option A
  find_row p [] = none
  find_row p (x ∷ xs) = let rest = find_row p xs in if p x then some x else rest

  -- `UPDATE ... SET f WHERE p`.
  abbrev pub update_if : (A → Bool) → (A → A) → A → A
  update_if p f x = if p x then f x else x

  unfoldable pub update_rows : (A → Bool) → (A → A) → List A → List A
  update_rows p f xs = map (update_if p f) xs

  -- The `rowcount` of an update: how many rows pass.
  unfoldable pub count_rows : (A → Bool) → List A → ℕ
  count_rows p [] = 0
  count_rows p (x ∷ xs) = let rest = count_rows p xs in if p x then suc rest else rest

  -- `INTEGER PRIMARY KEY` without a value: one more than the largest key.
  unfoldable pub max_key : (A → ℕ) → List A → ℕ
  max_key key [] = 0
  max_key key (x ∷ xs) = max (key x) (max_key key xs)

  -- `SELECT ... WHERE p ORDER BY before LIMIT 1`.
  unfoldable pub first_row : (A → A → Bool) → (A → Bool) → List A → Option A
  first_row before p [] = none
  first_row before p (x ∷ xs) =
      let rest = first_row before p xs in
      if p x
      then elim rest [ none ↦ some x | some y ↦ if before y x then some y else some x ]
      else rest

  -- `ORDER BY`.
  abbrev pub insert_sorted : (A → A → Bool) → A → List A → List A
  insert_sorted before x [] = x ∷ []
  insert_sorted before x (y ∷ ys) =
      let rest = insert_sorted before x ys in if before y x then y ∷ rest else x ∷ y ∷ ys

  unfoldable pub order_by : (A → A → Bool) → List A → List A
  order_by before [] = []
  order_by before (x ∷ xs) = insert_sorted before x (order_by before xs)

  -- A found row passes the test.
  pub find_row_passes : (p : A → Bool) (xs : List A) {x : A} → find_row p xs ≡ some x → p x ≡ true
  unfolding find_row
  find_row_passes p [] h = cc
  find_row_passes p (y ∷ ys) {x} h = ground (arith, find_row_passes p ys {x = x})

  -- A found row satisfies what every row satisfies.
  pub find_row-All {κ} :
      (P : A → Type κ) (p : A → Bool) (xs : List A) {x : A}
      → find_row p xs ≡ some x
      → All P xs
      → P x
  unfolding find_row
  find_row-All P p [] h a = absurd (cc)
  find_row-All P p (y ∷ ys) {x} h a = elim (Bool-cases (p y)) [
    | inl here ↦ subst P (ground arith) a.0
    | inr there ↦ find_row-All P p ys (ground arith) a.1
  ]

  -- No row passes when none is found.
  pub find_row-none :
      (p : A → Bool) (xs : List A) → find_row p xs ≡ none → All (λ x. p x ≡ false) xs
  unfolding find_row
  find_row-none p [] h = tt
  find_row-none p (y ∷ ys) h = (ground arith, find_row-none p ys (ground arith))

  -- Where a row is found, one passes.
  pub any-find_row : (p : A → Bool) (xs : List A) {x : A} → find_row p xs ≡ some x → any p xs ≡ true
  unfolding find_row
  any-find_row p [] h = cc
  any-find_row p (y ∷ ys) {x} h = ground (arith, any-find_row p ys {x = x})

  -- Nothing is found, and nothing counted, where no row passes.
  pub find_row_miss :
      (p : A → Bool) (xs : List A) → All (λ x. p x ≡ false) xs → find_row p xs ≡ none
  unfolding find_row
  find_row_miss p [] a = refl
  find_row_miss p (y ∷ ys) a = ground (arith, find_row_miss p ys a.1)

  pub count_rows_miss :
      (p : A → Bool) (xs : List A) → All (λ x. p x ≡ false) xs → count_rows p xs ≡ 0
  unfolding count_rows
  count_rows_miss p [] a = refl
  count_rows_miss p (y ∷ ys) a = ground (arith, count_rows_miss p ys a.1)

  pub key-le-max_key : (key : A → ℕ) (xs : List A) → All (λ x. key x ≤ max_key key xs) xs
  unfolding max_key
  key-le-max_key key [] = tt
  key-le-max_key key (x ∷ xs) =
      (omega arith, All-imp _ _ (λ y h. omega (arith, h)) xs (key-le-max_key key xs))

module _ {ℓ κ μ} {A : Type ℓ} where
  -- An update keeps a property of all rows if it keeps it of each row that it changes.
  pub update_rows-All :
      (P : A → Type κ) (Q : A → Type μ) (p : A → Bool) (f : A → A)
      → ((x : A) → P x → p x ≡ true → Q (f x))
      → ((x : A) → P x → p x ≡ false → Q x)
      → (xs : List A) → All P xs
      → All Q (update_rows p f xs)
  unfolding update_rows
  update_rows-All P Q p f changed kept xs a = All-map P Q (update_if p f) each xs a
    where
      each : (x : A) → P x → Q (update_if p f x)
      each x h = elim (Bool-cases (p x)) [
        | inl e ↦ rw e (changed x h e)
        | inr e ↦ rw e (kept x h e)
      ]

module _ {ℓ} {A : Type ℓ} where
  -- A row that is updated is found again where the first row was found.
  pub find_row-update :
      (p : A → Bool) (f : A → A)
      → ((x : A) → p x ≡ true → p (f x) ≡ true)
      → (xs : List A) (x : A) → find_row p xs ≡ some x
      → find_row p (update_rows p f xs) ≡ some (f x)
  unfolding find_row update_rows
  find_row-update p f keep [] x h = absurd (cc)
  find_row-update p f keep (y ∷ ys) x h = elim (Bool-cases (p y)) [
    | inl e ↦ ground (arith, keep y e)
    | inr n ↦ ground (arith, find_row-update p f keep ys x)
  ]

  -- The row that is found at a key is found there again after an update that meets it.
  pub find_row-update_at :
      (q p : A → Bool) (f : A → A)
      → ((x : A) → q x ≡ false → p x ≡ false)
      → ((x : A) → q x ≡ true → q (f x) ≡ true)
      → (xs : List A) (x : A) → find_row q xs ≡ some x
      → p x ≡ true
      → find_row q (update_rows p f xs) ≡ some (f x)
  unfolding find_row update_rows
  find_row-update_at q p f miss keep [] x h m = absurd (cc)
  find_row-update_at q p f miss keep (y ∷ ys) x h m = elim (Bool-cases (q y)) [
    | inl e ↦ ground (arith, keep y e)
    | inr n ↦ ground (arith, miss y n, find_row-update_at q p f miss keep ys x)
  ]

  pub first_row_passes :
      (before : A → A → Bool) (p : A → Bool) (xs : List A) (x : A)
      → first_row before p xs ≡ some x
      → p x ≡ true
  unfolding first_row
  first_row_passes before p [] x h = absurd (cc)
  first_row_passes before p (y ∷ ys) x h =
      ground (arith, first_row_passes before p ys x, Option-cases (first_row before p ys))

  -- The first row of an order satisfies what every row satisfies.
  pub first_row-All {κ} :
      (P : A → Type κ) (before : A → A → Bool) (p : A → Bool) (xs : List A) (x : A)
      → first_row before p xs ≡ some x
      → All P xs
      → P x
  unfolding first_row
  first_row-All P before p [] x h a = absurd (cc)
  first_row-All P before p (y ∷ ys) x h a = elim (Option-cases (first_row before p ys)) [
    | inl e ↦ let same : y ≡ x = ground arith in subst P same a.0
    | inr (z, e) ↦
        let later = first_row-All P before p ys z e a.1 in
        elim (Bool-cases (p y && not (before z y))) [
          | inl b ↦ let same : y ≡ x = ground arith in subst P same a.0
          | inr b ↦ let same : z ≡ x = ground arith in subst P same later
        ]
  ]

  pub first_row-none :
      (before : A → A → Bool) (p : A → Bool) (xs : List A)
      → first_row before p xs ≡ none
      → All (λ x. p x ≡ false) xs
  unfolding first_row
  first_row-none before p [] h = tt
  first_row-none before p (y ∷ ys) h = (
    ground (arith, Option-cases (first_row before p ys)),
    first_row-none before p ys (ground (arith, Option-cases (first_row before p ys))),
  )

  -- In an order, no row that passes stands before the first.
  pub first_row-least :
      (before : A → A → Bool) (p : A → Bool)
      → ((x : A) → before x x ≡ false)
      → ((x y : A) → before x y ≡ true → before y x ≡ false)
      → ((x y z : A) → before x y ≡ false → before y z ≡ false → before x z ≡ false)
      → (xs : List A) (x : A) → first_row before p xs ≡ some x
      → All (λ y. p y ≡ true → before y x ≡ false) xs
  unfolding first_row
  first_row-least before p irr asy tra [] x h = tt
  first_row-least before p irr asy tra (y ∷ ys) x h =
      let rest = first_row-least before p irr asy tra ys in
      elim (Bool-cases (p y)) [
        | inr n ↦ (λ q. absurd (cc), rest x (ground arith))
        | inl q ↦ elim (Option-cases (first_row before p ys)) [
          | inl e ↦ (
            λ _. ground (arith, irr y),
            All-imp _ _ (λ w m r. absurd (cc)) ys (first_row-none before p ys e),
          )
          | inr (z, e) ↦ elim (Bool-cases (before z y)) [
            | inl b ↦
                let same : z ≡ x = ground arith in
                (
                  λ _. ground (arith, asy z y),
                  subst (λ w. All (λ v. p v ≡ true → before v w ≡ false) ys) same (rest z e),
                )
            | inr b ↦
                let same : y ≡ x = ground arith in
                (
                  λ _. ground (arith, irr y),
                  All-imp _ _ (λ w m r. ground (arith, m r, tra w z y)) ys (rest z e),
                )
          ]
        ]
      ]

module _ {ℓ κ} {A : Type ℓ} where
  -- What an update gives to the rows that it changes, and the others have, all rows have.
  pub update_rows_everywhere :
      (Q : A → Type κ) (p : A → Bool) (f : A → A)
      → ((x : A) → p x ≡ true → Q (f x))
      → ((x : A) → p x ≡ false → Q x)
      → (xs : List A) → All Q (update_rows p f xs)
  update_rows_everywhere Q p f changed kept xs =
      update_rows-All (λ _. Unit {0}) Q p f (λ x _. changed x) (λ x _. kept x) xs
        (All-intro _ (λ x. tt) xs)
