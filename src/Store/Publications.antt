-- ===== src/Store/Publications.antt =====
-- reviewer/state.py: the publications of reviews that do not approve. A marker is recorded as
-- possibly sent before the review is posted, and confirmed with the identity of the review.
pub mod Once
use dohwa_hermes_stack.Base.{
  ℕ, ◌≡◌, Bool, true, false, not, ◌&&◌, ◌||◌, Option, none, some, List, [], ◌∷◌, ◌++◌, String, ◌==◌,
  ◌=t◌, opt_eq, sql_eq, ltb, any, find_row, first_row, update_rows, count_rows, Result, ok, err,
  key_error, value_error, runtime_error, type_error, integrity_error, overflow_error, require,
  refuse, ◌>>=◌, ◌>>◌, if◌then◌else◌, Value, text_length, text_before,
}
use dohwa_hermes_stack.Models.{ReviewJob}
use dohwa_hermes_stack.Approval.Checks.{max_int64}
use dohwa_hermes_stack.Store.Tables.{
  ReviewAttempt, ReviewPublication, StateStore, maybe_sent, confirmed, ◌=p◌,
}
use dohwa_hermes_stack.Store.Ingest.{is_job}
use dohwa_hermes_stack.Store.Attempts.{positive_id}
use dohwa_hermes_stack.Store.Attempts.Prepare.{must, is_unresolved_for}

abbrev pub is_event : String → Bool
is_event event = event =t "COMMENT" || event =t "REQUEST_CHANGES"

abbrev pub is_marker_size : String → Bool
is_marker_size marker = not (marker =t "" || ltb 1_000 (text_length marker))

abbrev pub has_marker : String → ReviewPublication → Bool
has_marker marker p = p.marker =t marker

-- A publication of the pull request that may have been sent, through its job.
unfoldable pub is_outstanding : List ReviewJob → ℕ → ℕ → ReviewPublication → Bool
is_outstanding jobs repository_id pull_number p =
    p.publish_state =p maybe_sent
    && any
        (λ (j : ReviewJob).
          j.id == p.job_id
          && (sql_eq ◌==◌ j.repository_id (some repository_id) && j.pull_number == pull_number))
        jobs

-- `ORDER BY publish_started_at, marker`.
abbrev pub published_before : ReviewPublication → ReviewPublication → Bool
published_before p q =
    ltb p.publish_started_at q.publish_started_at
    || (p.publish_started_at == q.publish_started_at && text_before p.marker q.marker)

-- The outstanding publication is another one.
abbrev pub is_busy_with : String → Option ReviewPublication → Bool
is_busy_with marker none = false
is_busy_with marker (some p) = not (p.marker =t marker)

abbrev pub new_publication : ℕ → ℕ → String → String → ReviewPublication
new_publication now job_id marker event = record {
  marker = marker;
  job_id = job_id;
  event = event;
  publish_state = maybe_sent;
  github_review_id = none;
  publish_started_at = now;
  publish_confirmed_at = none;
}

-- `INSERT OR IGNORE`.
unfoldable pub insert_publication : ReviewPublication → StateStore → StateStore
insert_publication p s =
    if any (has_marker p.marker) s.publications
    then s
    else record s { publications = s.publications ++ p ∷ [] }

abbrev pub is_same_publication : ℕ → String → ReviewPublication → Bool
is_same_publication job_id event p = p.job_id == job_id && p.event =t event

-- The row that is read back after the insertion. There always is one.
unfoldable pub begin_row :
    ℕ → String → Bool → StateStore → Option ReviewPublication → Result (Bool × StateStore)
begin_row job_id event inserted s none = err type_error
begin_row job_id event inserted s (some p) = do
  require (is_same_publication job_id event p)
      (runtime_error "review publication marker identity collision")
  ok (inserted, s)

-- What is done for a job with the identity of its repository.
unfoldable pub begin_for :
    ℕ → ReviewJob → ℕ → String → String → StateStore → Result (Bool × StateStore)
unfolding begin_row insert_publication is_outstanding first_row find_row
begin_for now job repository_id marker event s =
    let outstanding =
      first_row published_before (is_outstanding s.jobs repository_id job.pull_number)
        s.publications in
    let t = insert_publication (new_publication now job.id marker event) s in
    if is_busy_with marker outstanding
      || any (is_unresolved_for repository_id job.pull_number) s.attempts
    then ok (false, s)
    else begin_row job.id event (not (any (has_marker marker) s.publications)) t
        (find_row (has_marker marker) t.publications)

abbrev pub must_know : Option ℕ → Result ℕ
must_know none = err (runtime_error "review job has no repository identity")
must_know (some i) = ok i

unfoldable pub begin_review_publication :
    ℕ → ℕ → String → String → StateStore → Result (Bool × StateStore)
unfolding begin_for find_row
begin_review_publication now job_id marker event s = do
  require (is_marker_size marker) (value_error "review publication marker is invalid")
  require (is_event event) (value_error "review publication event is invalid")
  job ← must (find_row (is_job job_id) s.jobs)
  repository_id ← must_know job.repository_id
  begin_for now job repository_id marker event s

abbrev pub is_possibly_sent : String → ReviewPublication → Bool
is_possibly_sent marker p = has_marker marker p && p.publish_state =p maybe_sent

abbrev pub confirming : ℕ → ℕ → ReviewPublication → ReviewPublication
confirming now review p = record p {
  publish_state = confirmed;
  github_review_id = some review;
  publish_confirmed_at = some now;
}

-- What is done with the row of the marker. Without a row one is inserted, which the foreign key and
-- the length of the marker may refuse.
unfoldable pub confirm_row :
    ℕ → ℕ → String → String → ℕ → StateStore → Option ReviewPublication → Result StateStore
unfolding update_rows count_rows
confirm_row now job_id marker event review s none = do
  refuse (ltb max_int64 job_id || ltb max_int64 review) overflow_error
  require (is_marker_size marker) (integrity_error "review_publications.marker")
  require (any (is_job job_id) s.jobs) (integrity_error "review_publications.job_id")
  ok (record s {
    publications =
        s.publications ++ confirming now review (new_publication now job_id marker event) ∷ [];
  })
confirm_row now job_id marker event review s (some p) = do
  require (is_same_publication job_id event p)
      (runtime_error "review publication marker identity collision")
  if p.publish_state =p confirmed
      then require (opt_eq ◌==◌ p.github_review_id (some review))
          (runtime_error "review publication is bound to another review")
        >> ok s
      else do
        refuse (ltb max_int64 review) overflow_error
        require (count_rows (is_possibly_sent marker) s.publications == 1)
            (runtime_error "review publication confirmation CAS failed")
        ok (record s {
          publications =
              update_rows (is_possibly_sent marker) (confirming now review) s.publications;
        })

unfoldable pub confirm_review_publication :
    ℕ → ℕ → String → String → Value → StateStore → Result StateStore
unfolding confirm_row find_row
confirm_review_publication now job_id marker event github_review_id s = do
  review ← positive_id github_review_id
  require (is_event event) (value_error "review publication event is invalid")
  confirm_row now job_id marker event review s (find_row (has_marker marker) s.publications)
