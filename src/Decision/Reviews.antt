-- ===== src/Decision/Reviews.antt =====
-- reviewer/decision.py: `has_blocking_human_review`. `render`, `casefold` and `upper` stand for
-- `str` of a value that is not a text, `str.casefold` and `str.upper`.
use dohwa_hermes_stack.Base.{
  ℕ, ◌+◌, ◌≡◌, refl, sym, ◌∙◌, subst, ◌⊎◌, inl, inr, Bool, true, false, ◌||◌, some, List, [], ◌∷◌,
  ◌++◌, String, arith, eq_iff, eq_refl, ◌=t◌, leb, any, All, find_row, ℤ, pos, negsuc, Value, null,
  bool, int, object, Fields, get_field, truth, Result, ok, err, attribute_error, ◌>>=◌,
  if◌then◌else◌, Bool-cases,
}
use dohwa_hermes_stack.Decision.Ci.{text_or_empty}

-- `a <= b` of integers.
abbrev pub leb_ℤ : ℤ → ℤ → Bool
leb_ℤ (pos a) (pos b) = leb a b
leb_ℤ (pos a) (negsuc b) = false
leb_ℤ (negsuc a) (pos b) = true
leb_ℤ (negsuc a) (negsuc b) = leb b a

pub record Vote : Type 0 where
  pub login : String
  pub order : ℤ
  pub state : String

-- The order of a review: its identity where that is an integer (a Boolean is one), or its position.
abbrev pub review_order : ℕ → Value → ℤ
review_order index (int i) = i
review_order index (bool true) = pos 1
review_order index (bool false) = pos 0
review_order index _ = pos index

-- `(value or {}).get(key)`: what is not an object and not empty has no `get`.
abbrev pub get_of : String → Value → Result Value
get_of key (object fields) = ok (get_field key fields)
get_of key v = if truth v then err attribute_error else ok null

abbrev pub cast : Vote → List Vote → List Vote
cast v [] = v ∷ []
cast v (w ∷ ws) =
    let rest = cast v ws in
    if w.login =t v.login then (if leb_ℤ w.order v.order then v ∷ ws else w ∷ ws) else w ∷ rest

-- The dictionary `latest` after some votes: one entry for each login.
unfoldable pub latest_votes : List Vote → List Vote → List Vote
latest_votes latest [] = latest
latest_votes latest (v ∷ vs) = latest_votes (cast v latest) vs

abbrev pub is_change_request : Vote → Bool
is_change_request v = v.state =t "CHANGES_REQUESTED"

module _ (render : Value → String) (casefold upper : String → String) where
  -- The votes of people: reviews without a login, and those of the app, are passed over.
  unfoldable pub votes_of : String → ℕ → List Fields → Result (List Vote)
  unfolding get_field
  votes_of app_actor index [] = ok []
  votes_of app_actor index (r ∷ rs) = do
    v ← get_of "login" (get_field "user" r)
    rest ← votes_of app_actor (index + 1) rs
    let login = text_or_empty render v
    if login =t "" || casefold login =t casefold app_actor
        then ok rest
        else ok (
            (record {
              login = casefold login;
              order = review_order index (get_field "id" r);
              state = upper (text_or_empty render (get_field "state" r));
            })
            ∷ rest)

  unfoldable pub has_blocking_human_review : String → List Fields → Result Bool
  unfolding votes_of latest_votes
  has_blocking_human_review app_actor reviews = do
    votes ← votes_of app_actor 0 reviews
    ok (any is_change_request (latest_votes [] votes))

abbrev of_login : String → Vote → Bool
of_login l v = v.login =t l

-- The entry of a login, and what a vote does to it.
find_cast_same :
    (v : Vote) (ws : List Vote)
    → All (λ w. w.login ≡ v.login → leb_ℤ w.order v.order ≡ true) ws
    → find_row (of_login v.login) (cast v ws) ≡ some v
unfolding find_row
find_cast_same v [] a = ground (arith, eq_refl v.login)
find_cast_same v (w ∷ ws) a = elim (Bool-cases (w.login =t v.login)) [
  | inl e ↦
      let lower = a.0 ((eq_iff w.login v.login).0 e) in
      rw (e, lower) (ground (arith, eq_refl v.login))
  | inr n ↦ rw n (ground (arith, find_cast_same v ws a.1))
]

find_cast_keep :
    (l : String) (u v : Vote) (ws : List Vote)
    → find_row (of_login l) ws ≡ some u
    → (v.login ≡ l → leb_ℤ u.order v.order ≡ false)
    → find_row (of_login l) (cast v ws) ≡ some u
unfolding find_row
find_cast_keep l u v [] h k = absurd (cc)
find_cast_keep l u v (w ∷ ws) h k = elim (Bool-cases (of_login l w)) [
  | inl e ↦
      let same : w ≡ u = ground arith in
      elim (Bool-cases (w.login =t v.login)) [
        | inl m ↦
            let higher = k (sym ((eq_iff w.login v.login).0 m) ∙ (eq_iff w.login l).0 e) in
            let kept : leb_ℤ w.order v.order ≡ false = rw same higher in rw (m, kept) h
        | inr n ↦ rw n (ground arith)
      ]
  | inr n ↦
      let there : find_row (of_login l) ws ≡ some u = ground arith in
      elim (Bool-cases (w.login =t v.login)) [
        | inl m ↦
            let aside : of_login l v ≡ false =
              subst (λ x. (x =t l) ≡ false) ((eq_iff w.login v.login).0 m) n in
            elim (Bool-cases (leb_ℤ w.order v.order)) [
              | inl q ↦ rw (m, q, aside) there
              | inr q ↦ rw (m, q, n) there
            ]
        | inr o ↦ rw (o, n) (find_cast_keep l u v ws there k)
      ]
]

-- All votes of the login that are in the list have at most the order.
abbrev pub AtMost : String → ℤ → List Vote → Type 0
AtMost l o = All (λ w. w.login ≡ l → leb_ℤ w.order o ≡ true)

-- All votes of the login that are in the list have a greater order.
abbrev pub Below : String → ℤ → List Vote → Type 0
Below l o = All (λ w. w.login ≡ l → leb_ℤ o w.order ≡ false)

cast-AtMost :
    (l : String) (o : ℤ) (v : Vote) (ws : List Vote)
    → (v.login ≡ l → leb_ℤ v.order o ≡ true)
    → AtMost l o ws
    → AtMost l o (cast v ws)
cast-AtMost l o v [] h a = (h, tt)
cast-AtMost l o v (w ∷ ws) h a = elim (Bool-cases (w.login =t v.login)) [
  | inl m ↦ elim (Bool-cases (leb_ℤ w.order v.order)) [
    | inl q ↦ rw (m, q) (h, a.1)
    | inr q ↦ rw (m, q) a
  ]
  | inr n ↦ rw n (a.0, cast-AtMost l o v ws h a.1)
]

latest_keep :
    (l : String) (u : Vote) (ws vs : List Vote)
    → find_row (of_login l) ws ≡ some u
    → All (λ w. w.login ≡ l → leb_ℤ u.order w.order ≡ false) vs
    → find_row (of_login l) (latest_votes ws vs) ≡ some u
unfolding latest_votes
latest_keep l u ws [] h a = h
latest_keep l u ws (v ∷ vs) h a = latest_keep l u (cast v ws) vs (find_cast_keep l u v ws h a.0) a.1

latest_found :
    (v : Vote) (ws before after : List Vote)
    → AtMost v.login v.order ws
    → AtMost v.login v.order before
    → Below v.login v.order after
    → find_row (of_login v.login) (latest_votes ws (before ++ v ∷ after)) ≡ some v
unfolding latest_votes
latest_found v ws [] after a b c = latest_keep v.login v (cast v ws) after (find_cast_same v ws a) c
latest_found v ws (u ∷ us) after a b c =
    latest_found v (cast u ws) us after (cast-AtMost v.login v.order u ws b.0 a) b.1 c

any_found :
    (p q : Vote → Bool) (ws : List Vote) (v : Vote)
    → find_row p ws ≡ some v
    → q v ≡ true
    → any q ws ≡ true
unfolding find_row
any_found p q [] v h m = absurd (cc)
any_found p q (w ∷ ws) v h m = ground (arith, any_found p q ws v)

-- Every entry was voted.
cast-any :
    (p : Vote → Bool) (v : Vote) (ws : List Vote)
    → any p (cast v ws) ≡ true
    → (p v ≡ true) ⊎ (any p ws ≡ true)
cast-any p v [] h = ground arith
cast-any p v (w ∷ ws) h = ground (arith, cast-any p v ws)

latest-any :
    (p : Vote → Bool) (ws vs : List Vote)
    → any p (latest_votes ws vs) ≡ true
    → (any p ws ≡ true) ⊎ (any p vs ≡ true)
unfolding latest_votes
latest-any p ws [] h = inl h
latest-any p ws (v ∷ vs) h = ground (arith, latest-any p (cast v ws) vs h, cast-any p v ws)

module _ (render : Value → String) (casefold upper : String → String) where
  -- If the decisive vote of a person, the one of the greatest order and of those the last, requests
  -- changes, the merge is blocked, whatever the others voted.
  pub has_blocking_human_review_decisive :
      (app_actor : String) (reviews : List Fields) (before after : List Vote) (v : Vote)
      → votes_of render casefold upper app_actor 0 reviews ≡ ok (before ++ v ∷ after)
      → AtMost v.login v.order before
      → Below v.login v.order after
      → is_change_request v ≡ true
      → has_blocking_human_review render casefold upper app_actor reviews ≡ ok true
  unfolding has_blocking_human_review
  has_blocking_human_review_decisive app_actor reviews before after v h b a c =
      let blocked =
        any_found (of_login v.login) is_change_request (latest_votes [] (before ++ v ∷ after)) v
          (latest_found v [] before after tt b a) c in
      rw (h, blocked) refl

  -- Where nobody's vote requests changes, nothing is blocked.
  pub has_blocking_human_review_free :
      (app_actor : String) (reviews : List Fields) (votes : List Vote)
      → votes_of render casefold upper app_actor 0 reviews ≡ ok votes
      → any is_change_request votes ≡ false
      → has_blocking_human_review render casefold upper app_actor reviews ≡ ok false
  unfolding has_blocking_human_review
  has_blocking_human_review_free app_actor reviews votes h a =
      let no_block : any is_change_request (latest_votes [] votes) ≡ false = ground (
        arith,
        latest-any is_change_request [] votes,
        Bool-cases (any is_change_request (latest_votes [] votes)),
      ) in
      rw (h, no_block) refl
