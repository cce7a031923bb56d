-- ===== src/Store/Publications/Once.antt =====
-- One generic publication of a pull request at a time.
use dohwa_hermes_stack.Base.{
  ℕ, ◌≡◌, refl, ◌∙◌, Bool, true, false, not, ◌&&◌, ◌||◌, Option, none, some, List, [], ◌∷◌, ◌++◌,
  String, arith, eq_refl, ◌==◌, sql_eq, opt_eq, any, All, find_row, find_row_passes, find_row-All,
  count_rows, find_row-update_at, first_row, first_row-none, ok, err, runtime_error, require_ok,
  refuse_ok, ltb, >>=-eq-ok, if◌then◌else◌, if_ok, Bool-cases, Option-cases, inl, inr, Value,
  update_rows,
}
use dohwa_hermes_stack.Models.{ReviewJob}
use dohwa_hermes_stack.Approval.Checks.{max_int64}
use dohwa_hermes_stack.Store.Tables.{ReviewPublication, StateStore, not_sent, confirmed, ◌=p◌}
use dohwa_hermes_stack.Store.Ingest.{is_job}
use dohwa_hermes_stack.Store.Attempts.{positive_id}
use dohwa_hermes_stack.Store.Attempts.Prepare.{is_unresolved_for, has_unresolved_review_publication}
use dohwa_hermes_stack.Store.Publications.{
  is_event, is_marker_size, has_marker, is_outstanding, published_before, is_busy_with,
  new_publication, insert_publication, is_same_publication, begin_row, begin_for,
  begin_review_publication, is_possibly_sent, confirming, confirm_row, confirm_review_publication,
}

-- A publication of the pull request is outstanding.
abbrev pub IsOutstanding : ℕ → ℕ → StateStore → Type 0
IsOutstanding repository_id pull_number s =
    has_unresolved_review_publication repository_id pull_number s ≡ true

outstanding_any :
    (repository_id pull_number : ℕ) (s : StateStore)
    → has_unresolved_review_publication repository_id pull_number s
      ≡ any (is_outstanding s.jobs repository_id pull_number) s.publications
unfolding has_unresolved_review_publication is_outstanding
outstanding_any repository_id pull_number s = refl

any-append :
    (p : ReviewPublication → Bool) (xs : List ReviewPublication) (y : ReviewPublication)
    → p y ≡ true
    → any p (xs ++ y ∷ []) ≡ true
any-append p [] y h = ground arith
any-append p (x ∷ xs) y h = ground (arith, any-append p xs y h)

first_row_finds :
    (p : ReviewPublication → Bool) (xs : List ReviewPublication)
    → any p xs ≡ true
    → (x : ReviewPublication) × (first_row published_before p xs ≡ some x)
first_row_finds p xs h = elim (Option-cases (first_row published_before p xs)) [
  | inl e ↦ absurd (none_passes xs (first_row-none published_before p xs e) h)
  | inr found ↦ found
]
  where
    none_passes : (ys : List ReviewPublication) → All (λ y. p y ≡ false) ys → any p ys ≡ true → ⊥
    none_passes [] a q = cc
    none_passes (y ∷ ys) a q = none_passes ys a.1 (ground (arith, a.0))

any_passes :
    (p q : ReviewPublication → Bool) (xs : List ReviewPublication) (x : ReviewPublication)
    → first_row published_before p xs ≡ some x
    → q x ≡ true
    → any q xs ≡ true
unfolding first_row
any_passes p q [] x h m = absurd (cc)
any_passes p q (y ∷ ys) x h m =
    ground (arith, any_passes p q ys x, Option-cases (first_row published_before p ys))

has_job :
    (k repository_id pull_number : ℕ) (jobs : List ReviewJob) (j : ReviewJob)
    → find_row (is_job k) jobs ≡ some j
    → j.repository_id ≡ some repository_id
    → j.pull_number ≡ pull_number
    → any
        (λ (i : ReviewJob).
          i.id == j.id
          && (sql_eq ◌==◌ i.repository_id (some repository_id) && i.pull_number == pull_number))
        jobs
      ≡ true
unfolding find_row
has_job k i n [] j h p q = absurd (cc)
has_job k i n (x ∷ xs) j h p q = elim (Bool-cases (is_job k x)) [
  | inl here ↦ let same : x ≡ j = ground arith in rw same (ground arith)
  | inr there ↦ ground (arith, has_job k i n xs j)
]

pub begin_row_ok :
    (k : ℕ) (event : String) (inserted b : Bool) (s t : StateStore) (x : Option ReviewPublication)
    → begin_row k event inserted s x ≡ ok (b, t)
    → (b ≡ inserted) × (t ≡ s)
unfolding begin_row
begin_row_ok k event inserted b s t none h = absurd (cc)
begin_row_ok k event inserted b s t (some p) h =
    let (_, g) = require_ok (is_same_publication k event p) _ _ h in (ground arith, ground arith)

module _ (now : ℕ) (job : ReviewJob) (i : ℕ) (marker event : String) (s t : StateStore) where
  begin_for_begun :
      begin_for now job i marker event s ≡ ok (true, t)
      → (t.jobs ≡ s.jobs)
        × (t.publications ≡ s.publications ++ new_publication now job.id marker event ∷ [])
  unfolding begin_for insert_publication
  begin_for_begun h =
      let outstanding =
        first_row published_before (is_outstanding s.jobs i job.pull_number) s.publications in
      let u = insert_publication (new_publication now job.id marker event) s in
      let new = not (any (has_marker marker) s.publications) in
      if_ok
        (is_busy_with marker outstanding || any (is_unresolved_for i job.pull_number) s.attempts)
        (ok (false, s)) (begin_row job.id event new u (find_row (has_marker marker) u.publications))
        h (λ _ x. absurd (ground arith))
        (λ _ x.
          let (fresh, same) = begin_row_ok job.id event new true u t _ x in
          let none_yet : any (has_marker marker) s.publications ≡ false = ground arith in
          rw (same, none_yet) (refl, refl))

  begin_for_blocked :
      (b : Bool)
      → begin_for now job i marker event s ≡ ok (b, t)
      → any (is_outstanding s.jobs i job.pull_number) s.publications ≡ true
      → (b ≡ false) × (t ≡ s)
  unfolding begin_for insert_publication
  begin_for_blocked b h out =
      let outstanding =
        first_row published_before (is_outstanding s.jobs i job.pull_number) s.publications in
      let u = insert_publication (new_publication now job.id marker event) s in
      let new = not (any (has_marker marker) s.publications) in
      let (p, first) =
        first_row_finds (is_outstanding s.jobs i job.pull_number) s.publications out in
      if_ok
        (is_busy_with marker outstanding || any (is_unresolved_for i job.pull_number) s.attempts)
        (ok (false, s)) (begin_row job.id event new u (find_row (has_marker marker) u.publications))
        h (λ _ x. (ground arith, ground arith))
        (λ q x.
          let there : any (has_marker marker) s.publications ≡ true =
            any_passes (is_outstanding s.jobs i job.pull_number) (has_marker marker) s.publications
              p first (ground (arith, first)) in
          let (fresh, same) = begin_row_ok job.id event new b u t _ x in
          (ground (arith, fresh, there), rw (same, there) refl))

-- After a publication has begun, the pull request has an unresolved publication, and in that store
-- every further publication of the pull request, for whatever job of it and with whatever marker,
-- that does not raise is turned down and changes nothing.
pub begin_review_publication_once :
    (now later k l repository_id : ℕ) (marker event again other : String) (s t : StateStore)
    (j i : ReviewJob)
    → begin_review_publication now k marker event s ≡ ok (true, t)
    → find_row (is_job k) s.jobs ≡ some j
    → j.repository_id ≡ some repository_id
    → find_row (is_job l) s.jobs ≡ some i
    → i.repository_id ≡ some repository_id
    → i.pull_number ≡ j.pull_number
    → (has_unresolved_review_publication repository_id j.pull_number t ≡ true)
      × ((b : Bool) (u : StateStore)
          → begin_review_publication later l again other t ≡ ok (b, u)
          → (b ≡ false) × (u ≡ t))
unfolding begin_review_publication is_outstanding
begin_review_publication_once now later k l repository_id marker event again other s t j i h found
      known found2 known2 pull =
    let (_, h1) = require_ok (is_marker_size marker) _ _ h in
    let (_, h2) = require_ok (is_event event) _ _ h1 in
    let h3 : begin_for now j repository_id marker event s ≡ ok (true, t) =
      rw (found, known) at h2 in
    let (jobs, rows) = begin_for_begun now j repository_id marker event s t h3 in
    let out : any (is_outstanding t.jobs repository_id j.pull_number) t.publications ≡ true =
      rw (jobs, rows)
        (any-append (is_outstanding s.jobs repository_id j.pull_number) s.publications
          (new_publication now j.id marker event)
          (has_job k repository_id j.pull_number s.jobs j found known refl)) in
    let held : find_row (is_job l) t.jobs ≡ some i = rw jobs found2 in
    (
      outstanding_any repository_id j.pull_number t ∙ out,
      λ b u g.
          let (_, g1) = require_ok (is_marker_size again) _ _ g in
          let (_, g2) = require_ok (is_event other) _ _ g1 in
          let g3 : begin_for later i repository_id again other t ≡ ok (b, u) =
            rw (held, known2) at g2 in
          begin_for_blocked later i repository_id again other t u b g3 (rw pull out),
    )

found_append :
    (p : ReviewPublication → Bool) (xs : List ReviewPublication) (x : ReviewPublication)
    → find_row p xs ≡ none
    → p x ≡ true
    → find_row p (xs ++ x ∷ []) ≡ some x
unfolding find_row
found_append p [] x h q = ground arith
found_append p (y ∷ ys) x h q = ground (arith, found_append p ys x)

-- The CHECK of the column: a publication is stored as possibly sent or as confirmed.
abbrev pub IsEverSent : StateStore → Type 0
IsEverSent s = All (λ (q : ReviewPublication). q.publish_state =p not_sent ≡ false) s.publications

module _ (now k review : ℕ) (marker event : String) (s t : StateStore) where
  confirm_row_confirms :
      (x : Option ReviewPublication)
      → IsEverSent s
      → find_row (has_marker marker) s.publications ≡ x
      → confirm_row now k marker event review s x ≡ ok t
      → (p : ReviewPublication) × (find_row (has_marker marker) t.publications ≡ some p)
        × (p.publish_state ≡ confirmed)
        × (p.github_review_id ≡ some review)
        × (is_same_publication k event p ≡ true)
  unfolding confirm_row
  confirm_row_confirms none sent found h =
      let (_, h0) = refuse_ok (ltb max_int64 k || ltb max_int64 review) _ _ h in
      let (_, h1) = require_ok (is_marker_size marker) _ _ h0 in
      let (_, h2) = require_ok (any (is_job k) s.jobs) _ _ h1 in
      let rows : t.publications
          ≡ s.publications ++ confirming now review (new_publication now k marker event) ∷ [] =
        ground arith in
      (
        confirming now review (new_publication now k marker event),
        rw rows (found_append (has_marker marker) s.publications _ found (eq_refl marker)),
        refl,
        refl,
        ground (arith, eq_refl event),
      )
  confirm_row_confirms (some p) sent found h =
      let (same, h1) = require_ok (is_same_publication k event p) _ _ h in
      elim (Bool-cases (p.publish_state =p confirmed)) [
        | inl e ↦
            let (bound, g) =
              require_ok (opt_eq ◌==◌ p.github_review_id (some review)) _ _ (rw e at h1) in
            let unchanged : t ≡ s = ground arith in
            (p, rw unchanged found, ground arith, ground arith, same)
        | inr e ↦
            let (_, h2) = refuse_ok (ltb max_int64 review) _ _ (rw e at h1) in
            let (once, g) =
              require_ok (count_rows (is_possibly_sent marker) s.publications == 1) _ _ h2 in
            let not_new =
              find_row-All (λ q. q.publish_state =p not_sent ≡ false) (has_marker marker)
                s.publications found sent in
            let rows : t.publications
                ≡ update_rows (is_possibly_sent marker) (confirming now review) s.publications =
              ground arith in
            (
              confirming now review p,
              rw rows (
                  find_row-update_at (has_marker marker) (is_possibly_sent marker)
                    (confirming now review) (λ x q. ground arith) (λ x q. q) s.publications p found
                    (ground (arith, find_row_passes (has_marker marker) s.publications found))),
              refl,
              refl,
              same,
            )
      ]

confirm_row_again :
    (later k review other : ℕ) (marker event : String) (t : StateStore) (p : ReviewPublication)
    → p.publish_state ≡ confirmed
    → p.github_review_id ≡ some review
    → is_same_publication k event p ≡ true
    → confirm_row later k marker event other t (some p) ≡ (
        if other == review
        then ok t
        else err (runtime_error "review publication is bound to another review"))
unfolding confirm_row
confirm_row_again later k review other marker event t p c r q = ground arith

-- Where every publication is stored as possibly sent or as confirmed, a confirmation that succeeds
-- leaves the marker's publication confirmed and bound to the review; from then on a confirmation
-- with the same review succeeds and changes nothing, and one with another review is refused.
pub confirm_review_publication_bound :
    (now later k : ℕ) (marker event : String) (v w : Value) (s t : StateStore)
    → IsEverSent s
    → confirm_review_publication now k marker event v s ≡ ok t
    → (review : ℕ) × (positive_id v ≡ ok review)
      × ((p : ReviewPublication) × (find_row (has_marker marker) t.publications ≡ some p)
          × (p.publish_state ≡ confirmed)
          × (p.github_review_id ≡ some review))
      × ((other : ℕ)
          → positive_id w ≡ ok other
          → confirm_review_publication later k marker event w t ≡ (
              if other == review
              then ok t
              else err (runtime_error "review publication is bound to another review")))
unfolding confirm_review_publication
confirm_review_publication_bound now later k marker event v w s t sent h =
    let (review, is_id, h1) = >>=-eq-ok (positive_id v) _ h in
    let (known, h2) = require_ok (is_event event) _ _ h1 in
    let (p, found, done, bound, same) =
      confirm_row_confirms now k review marker event s t
        (find_row (has_marker marker) s.publications) sent refl h2 in
    (
      review,
      is_id,
      (p, found, done, bound),
      λ other e.
          rw (e, known, found)
            (confirm_row_again later k review other marker event t p done bound same),
    )
