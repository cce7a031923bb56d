-- ===== src/Decision/Ci.antt =====
-- reviewer/decision.py: `ci_satisfies_policy`, over the check runs and the combined status as GitHub
-- returns them. `render` stands for `str` of a value that is not a text.
use dohwa_hermes_stack.Base.{
  ◌≡◌, refl, ◌⊎◌, inl, inr, Bool, true, false, not, ◌&&◌, ◌||◌, Option, none, some, List, [], ◌∷◌,
  String, arith, ◌=t◌, any, all, All, All-imp, Value, str, array, object, Fields, end, field,
  get_field, subst, get, items_list, is_object, is_literal, truth, is_none, if◌then◌else◌,
  Bool-cases, Option-cases, ◌≢◌, Result, ok, err, type_error, ◌>>=◌, >>=-eq-ok, ap,
}

-- `str(value or "")`.
abbrev pub text_or_empty : (Value → String) → Value → String
text_or_empty render (str s) = s
text_or_empty render v = if truth v then render v else ""

abbrev pub is_list : Value → Bool
is_list (array items) = true
is_list _ = false

abbrev pub list_of : Value → List Value
list_of (array items) = items_list items
list_of _ = []

module _ (render : Value → String) where
  abbrev pub check_name : Fields → String
  check_name c = text_or_empty render (get_field "name" c)

  -- `by_name.get(name)`: the last check run of a name.
  unfoldable pub by_name : String → List Fields → Option Fields
  by_name name [] = none
  by_name name (c ∷ cs) =
      let later = by_name name cs in
      if is_none later then if check_name c =t name then some c else none else later

abbrev pub is_completed : Fields → Bool
is_completed c = is_literal "completed" (get_field "status" c)

abbrev pub is_accepted : Value → Bool
is_accepted v = is_literal "success" v || (is_literal "neutral" v || is_literal "skipped" v)

-- A check run that has ended without a failure.
unfoldable pub is_quiet : Fields → Bool
unfolding get_field
is_quiet c = is_completed c && is_accepted (get_field "conclusion" c)

-- What Python does not put into a set.
abbrev pub is_unhashable : Value → Bool
is_unhashable (array items) = true
is_unhashable (object fields) = true
is_unhashable _ = false

-- The loop over the check runs: a conclusion that is looked up in the set and has no hash raises
-- `TypeError`.
unfoldable pub quiet_checks : List Fields → Result Bool
unfolding is_quiet get_field
quiet_checks [] = ok true
quiet_checks (c ∷ cs) =
    let rest = quiet_checks cs in
    if is_completed c && is_unhashable (get_field "conclusion" c)
    then err type_error
    else if is_quiet c
    then rest
    else ok false

-- A check run that has ended with success.
unfoldable pub is_successful : Fields → Bool
unfolding get_field
is_successful c = is_completed c && is_literal "success" (get_field "conclusion" c)

-- A required check has a run that succeeded.
unfoldable pub is_satisfied : Option Fields → Bool
unfolding is_successful
is_satisfied none = false
is_satisfied (some c) = truth (object c) && is_successful c

-- An item of the combined status that is an object without success.
unfoldable pub is_failed_status : Value → Bool
unfolding get
is_failed_status v = is_object v && not (is_literal "success" (get "state" v))

unfoldable pub statuses_pass : Value → Bool
unfolding get is_failed_status
statuses_pass status =
    let statuses = get "statuses" status in
    is_list statuses
    && not (
        truth statuses
        && (not (is_literal "success" (get "state" status))
            || any is_failed_status (list_of statuses)))

module _ (render : Value → String) where
  unfoldable pub ci_satisfies_policy : List String → List Fields → Value → Result Bool
  unfolding quiet_checks is_satisfied by_name statuses_pass
  ci_satisfies_policy [] checks status = ok false
  ci_satisfies_policy (r ∷ rs) checks status = do
    quiet ← quiet_checks checks
    ok (
        quiet
        && (all (λ name. is_satisfied (by_name render name checks)) (r ∷ rs)
            && statuses_pass status))

-- An element with a property.
abbrev pub Some {ℓ} : {A : Type ℓ} → (A → Type 0) → List A → Type 0
Some P [] = ⊥
Some P (x ∷ xs) = P x ⊎ Some P xs

truth_of_successful : (c : Fields) → is_successful c ≡ true → truth (object c) ≡ true
unfolding is_successful
truth_of_successful end h = absurd (cc)
truth_of_successful (field k v rest) h = refl

none_satisfied : (o : Option Fields) → o ≡ none → is_satisfied o ≡ true → ⊥
unfolding is_satisfied
none_satisfied o e h = ground arith

-- A check run that is completed with the conclusion `success`, and one whose conclusion is no
-- failure.
abbrev pub IsSuccess : Fields → Type 0
IsSuccess c =
    (is_literal "completed" (get_field "status" c) ≡ true)
    × (is_literal "success" (get_field "conclusion" c) ≡ true)

abbrev pub IsQuiet : Fields → Type 0
IsQuiet c =
    (is_literal "completed" (get_field "status" c) ≡ true)
    × ((is_literal "success" (get_field "conclusion" c) ≡ true)
        ⊎ (is_literal "neutral" (get_field "conclusion" c) ≡ true)
        ⊎ (is_literal "skipped" (get_field "conclusion" c) ≡ true))

is_quiet-IsQuiet : (c : Fields) → is_quiet c ≡ true → IsQuiet c
unfolding is_quiet
is_quiet-IsQuiet c h = ground arith

IsSuccess-is_successful : (c : Fields) → IsSuccess c → is_successful c ≡ true
unfolding is_successful
IsSuccess-is_successful c h = ground arith

module _ (render : Value → String) where
  -- A check run of the name that succeeded.
  abbrev pub Succeeds : String → Fields → Type 0
  Succeeds name c = ((check_name render c =t name) ≡ true) × IsSuccess c

  by_name-Some :
      (name : String) (checks : List Fields)
      → is_satisfied (by_name render name checks) ≡ true
      → Some (Succeeds name) checks
  unfolding by_name is_satisfied is_successful
  by_name-Some name [] h = cc
  by_name-Some name (c ∷ cs) h = elim (Option-cases (by_name render name cs)) [
    | inl none_later ↦ inl (ground arith, (ground arith, ground arith))
    | inr (d, later) ↦ inr (by_name-Some name cs (ground arith))
  ]

  by_name-All :
      (name : String) (checks : List Fields) (d : Fields)
      → All (λ c. is_successful c ≡ true) checks
      → by_name render name checks ≡ some d
      → is_successful d ≡ true
  unfolding by_name
  by_name-All name [] d a h = absurd (cc)
  by_name-All name (c ∷ cs) d a h = elim (Option-cases (by_name render name cs)) [
    | inl e ↦ let same : c ≡ d = ground arith in subst (λ x. is_successful x ≡ true) same a.0
    | inr (x, e) ↦ by_name-All name cs d a.1 (ground arith)
  ]

  -- Where every run succeeded, a name that some run has is satisfied.
  by_name-is_satisfied :
      (name : String) (checks : List Fields)
      → All (λ c. is_successful c ≡ true) checks
      → Some (Succeeds name) checks
      → is_satisfied (by_name render name checks) ≡ true
  unfolding by_name is_satisfied
  by_name-is_satisfied name [] a h = absurd h
  by_name-is_satisfied name (c ∷ cs) a h = elim (Option-cases (by_name render name cs)) [
    | inl e ↦ elim h [
      | inl here ↦ rw (e, here.0) (ground (arith, truth_of_successful c a.0, a.0))
      | inr later ↦
          absurd
            (none_satisfied (by_name render name cs) e (by_name-is_satisfied name cs a.1 later))
    ]
    | inr (d, e) ↦
        let good = by_name-All name cs d a.1 e in
        rw e (ground (arith, truth_of_successful d good, good))
  ]

all-All {ℓ} : {A : Type ℓ} (p : A → Bool) (xs : List A) → all p xs ≡ true → All (λ x. p x ≡ true) xs
all-All p [] h = tt
all-All p (x ∷ xs) h = (ground arith, all-All p xs (ground arith))

All-all {ℓ} : {A : Type ℓ} (p : A → Bool) (xs : List A) → All (λ x. p x ≡ true) xs → all p xs ≡ true
All-all p [] a = refl
All-all p (x ∷ xs) a = ground (arith, All-all p xs a.1)

quiet_checks_only :
    (checks : List Fields) → quiet_checks checks ≡ ok true → All (λ c. is_quiet c ≡ true) checks
unfolding quiet_checks
quiet_checks_only [] h = tt
quiet_checks_only (c ∷ cs) h = (ground arith, quiet_checks_only cs (ground arith))

All-quiet_checks : (checks : List Fields) → All IsSuccess checks → quiet_checks checks ≡ ok true
unfolding quiet_checks is_quiet
All-quiet_checks [] a = refl
All-quiet_checks (c ∷ cs) a =
    rw (hashable (get_field "conclusion" c) a.0.1) (ground (arith, All-quiet_checks cs a.1))
  where
    hashable : (v : Value) → is_literal "success" v ≡ true → is_unhashable v ≡ false
    hashable v h = ground arith

none_fail :
    (xs : List Value) → any is_failed_status xs ≡ false → All (λ v. is_failed_status v ≡ false) xs
none_fail [] h = tt
none_fail (x ∷ xs) h = (ground arith, none_fail xs (ground arith))

-- What the combined status must be: a list of statuses, which is empty or has only successes and
-- the state `success`.
abbrev pub StatusesPass : Value → Type 0
StatusesPass status =
    (is_list (get "statuses" status) ≡ true)
    × ((truth (get "statuses" status) ≡ false)
        ⊎ ((is_literal "success" (get "state" status) ≡ true)
            × All (λ v. is_failed_status v ≡ false) (list_of (get "statuses" status))))

statuses_pass-StatusesPass : (status : Value) → statuses_pass status ≡ true → StatusesPass status
unfolding statuses_pass
statuses_pass-StatusesPass status h = elim (Bool-cases (truth (get "statuses" status))) [
  | inr e ↦ (ground arith, inl e)
  | inl e ↦
      (ground arith, inr (ground arith, none_fail (list_of (get "statuses" status)) (ground arith)))
]

-- CI that is found satisfied has at least one required check, no check run that is unfinished or
-- failed, for every required name a run of that name that ended with success, and a combined status
-- that is a list of statuses, which is empty or has only successes and the state `success`.
pub ci_satisfies_policy_sound :
    (render : Value → String) (required : List String) (checks : List Fields) (status : Value)
    → ci_satisfies_policy render required checks status ≡ ok true
    → (required ≢ [])
      × All IsQuiet checks
      × All (λ name. Some (Succeeds render name) checks) required
      × StatusesPass status
unfolding ci_satisfies_policy
ci_satisfies_policy_sound render [] checks status h = absurd (cc)
ci_satisfies_policy_sound render (r ∷ rs) checks status h =
    let (quiet, q, g) = >>=-eq-ok (quiet_checks checks) _ h in
    let named =
      all-All (λ name. is_satisfied (by_name render name checks)) (r ∷ rs) (ground arith) in
    (
      λ e. cc,
      All-imp _ _ is_quiet-IsQuiet checks (quiet_checks_only checks (ground (arith, q))),
      All-imp _ _ (λ name q. by_name-Some render name checks q) (r ∷ rs) named,
      statuses_pass-StatusesPass status (ground arith),
    )

-- Where at least one check is required, every check run ended with success, every required name has
-- a run, and the combined status passes, CI is found satisfied.
pub ci_satisfies_policy_complete :
    (render : Value → String) (required : List String) (checks : List Fields) (status : Value)
    → required ≢ []
    → All IsSuccess checks
    → All (λ name. Some (Succeeds render name) checks) required
    → statuses_pass status ≡ true
    → ci_satisfies_policy render required checks status ≡ ok true
unfolding ci_satisfies_policy is_successful
ci_satisfies_policy_complete render [] checks status nonempty a n p = absurd (nonempty refl)
ci_satisfies_policy_complete render (r ∷ rs) checks status nonempty a n p =
    let good = All-imp _ _ IsSuccess-is_successful checks a in
    let named =
      All-all (λ name. is_satisfied (by_name render name checks)) (r ∷ rs)
        (All-imp _ _ (λ name q. by_name-is_satisfied render name checks good q) (r ∷ rs) n) in
    rw (All-quiet_checks checks a, named) (ap ok p)
