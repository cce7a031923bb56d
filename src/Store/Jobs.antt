-- ===== src/Store/Jobs.antt =====
-- reviewer/state.py: the queries and the methods that move review jobs: a transition asked for by
-- the orchestrator, the claim of the next queued job, and the recovery after a restart.
pub mod Keeps
pub mod Moves
pub mod Claims
use dohwa_hermes_stack.Base.{
  ℕ, ◌+◌, ◌≡◌, Bool, true, false, not, ◌&&◌, ◌||◌, Option, none, some, List, [], ◌∷◌, map, String,
  ◌==◌, ◌=t◌, opt_eq, coalesce, is_none, leb, ltb, select, find_row, first_row, update_rows,
  count_rows, Result, ok, err, key_error, value_error, runtime_error, require, refuse, ◌>>=◌, ◌>>◌,
  if◌then◌else◌, Value, int, pos,
}
use dohwa_hermes_stack.Models.{
  ReviewState, queued, reviewing, waiting_ci, changes_required, human_review, failed, merging,
  merged, obsolete, closed, ReviewJob, RecoveryReport, state_in, ◌=s◌, validate_transition,
}
use dohwa_hermes_stack.Store.Tables.{StateStore, OutboxRow}
use dohwa_hermes_stack.Store.Tables.Signed.{ReconciliationRow}
use dohwa_hermes_stack.Store.Invalidate.{invalidate_if_job_left_review_context}
use dohwa_hermes_stack.Store.Ingest.{is_job, is_head}

unfoldable pub get_job : String → ℕ → String → StateStore → Option ReviewJob
unfolding find_row
get_job repository pull_number head s = find_row (is_head repository pull_number head) s.jobs

unfoldable pub get_job_by_id : ℕ → StateStore → Option ReviewJob
unfolding find_row
get_job_by_id i s = find_row (is_job i) s.jobs

-- The jobs in some states, or all of them. Rows are stored in the order of their identities.
unfoldable pub list_jobs : List ReviewState → StateStore → List ReviewJob
list_jobs [] s = s.jobs
list_jobs (t ∷ ts) s = select (λ j. state_in j.state (t ∷ ts)) s.jobs

-- The optional arguments of `transition`.
pub record JobUpdate : Type 0 where
  pub review_decision : Option String
  pub findings_hash : Option String
  pub github_review_id : Option ℕ
  pub github_comment_id : Option ℕ
  pub discord_message_id : Option String
  pub discord_thread_id : Option String
  pub merge_sha : Option String
  pub last_error : Option String
  pub retry_at : Option ℕ

-- The states with which a job ends or waits for a person.
abbrev pub finished_states : List ReviewState
finished_states = changes_required ∷ human_review ∷ failed ∷ merged ∷ obsolete ∷ closed ∷ []

-- The update of a row by `transition`.
unfoldable pub moved : ℕ → ReviewState → JobUpdate → ReviewJob → ReviewJob
moved now target u j = record j {
  state = target;
  queued_at = if target =s queued then some now else j.queued_at;
  started_at = if target =s reviewing then some now else j.started_at;
  finished_at = if state_in target finished_states then some now else j.finished_at;
  review_decision = coalesce u.review_decision j.review_decision;
  findings_hash = coalesce u.findings_hash j.findings_hash;
  github_review_id = coalesce u.github_review_id j.github_review_id;
  github_comment_id = coalesce u.github_comment_id j.github_comment_id;
  discord_message_id = coalesce u.discord_message_id j.discord_message_id;
  discord_thread_id = coalesce u.discord_thread_id j.discord_thread_id;
  merge_sha = coalesce u.merge_sha j.merge_sha;
  last_error = u.last_error;
  retry_at = u.retry_at;
  updated_at = now;
}

abbrev is_expected : Option ReviewState → ReviewState → Bool
is_expected none current = true
is_expected (some x) current = current =s x

-- `transition` after its row is read. The times that it reads from that row stay with it.
unfoldable pub transition_row :
    ℕ
    → ℕ
    → ReviewState
    → Option ReviewState
    → JobUpdate
    → StateStore
    → Option ReviewJob
    → Result (ReviewJob × StateStore)
unfolding moved update_rows
transition_row now job_id target expected u s none = err (key_error "unknown review job")
transition_row now job_id target expected u s (some row) = do
  require (is_expected expected row.state) (runtime_error "job is not in the expected state")
  validate_transition row.state target
  t ←
      invalidate_if_job_left_review_context job_id target now
        (record s { jobs = update_rows (is_job job_id) (moved now target u) s.jobs })
  ok (moved now target u row, t)

unfoldable pub transition :
    ℕ
    → ℕ
    → ReviewState
    → Option ReviewState
    → JobUpdate
    → StateStore
    → Result (ReviewJob × StateStore)
unfolding transition_row find_row
transition now job_id target expected u s =
    transition_row now job_id target expected u s (find_row (is_job job_id) s.jobs)

-- A repository identity is set once.
unfoldable pub bind_job_repository_id : ℕ → ℕ → Value → StateStore → Result (ReviewJob × StateStore)
unfolding find_row update_rows
bind_job_repository_id now job_id (int (pos n)) s =
    if n == 0
    then err (value_error "repository_id must be a positive integer")
    else elim (find_row (is_job job_id) s.jobs) [
      | none ↦ err (key_error "unknown review job")
      | some row ↦ elim row.repository_id [
        | none ↦
            let f = λ (j : ReviewJob). record j { repository_id = some n; updated_at = now } in
            ok (
              f row,
              record s {
                jobs = update_rows (λ j. j.id == job_id && is_none j.repository_id) f s.jobs;
              },
            )
        | some k ↦
            if k == n
            then ok (row, s)
            else err (runtime_error "review job repository identity changed")
      ]
    ]
bind_job_repository_id now job_id _ s = err (value_error "repository_id must be a positive integer")

-- `retry_at IS NULL OR retry_at <= ?`.
abbrev pub is_due : Option ℕ → ℕ → Bool
is_due none now = true
is_due (some t) now = leb t now

abbrev pub is_claimable : ℕ → ReviewJob → Bool
is_claimable now j = j.state =s queued && is_due j.retry_at now

-- `ORDER BY queued_at, id`: NULL comes first.
abbrev pub time_before : Option ℕ → Option ℕ → Bool
time_before none none = false
time_before none (some b) = true
time_before (some a) none = false
time_before (some a) (some b) = ltb a b

abbrev pub queued_before : ReviewJob → ReviewJob → Bool
queued_before a b =
    time_before a.queued_at b.queued_at || (opt_eq ◌==◌ a.queued_at b.queued_at && ltb a.id b.id)

unfoldable pub claimed : ℕ → ReviewJob → ReviewJob
claimed now j = record j {
  state = reviewing;
  started_at = some now;
  attempt_count = j.attempt_count + 1;
  retry_at = none;
  updated_at = now;
}

abbrev pub is_queued_job : ℕ → ReviewJob → Bool
is_queued_job i j = j.id == i && j.state =s queued

unfoldable pub claim_row : ℕ → StateStore → Option ReviewJob → Option ReviewJob × StateStore
unfolding claimed update_rows count_rows
claim_row now s none = (none, s)
claim_row now s (some row) =
    if count_rows (is_queued_job row.id) s.jobs == 1
    then (
      some (claimed now row),
      record s { jobs = update_rows (is_queued_job row.id) (claimed now) s.jobs },
    )
    else (none, s)

unfoldable pub claim_next : ℕ → StateStore → Option ReviewJob × StateStore
unfolding claim_row first_row
claim_next now s = claim_row now s (first_row queued_before (is_claimable now) s.jobs)

abbrev pub interrupted : ℕ → ReviewJob → ReviewJob
interrupted now j = record j {
  state = queued;
  queued_at = some now;
  started_at = none;
  retry_at = none;
  last_error = some "orchestrator restarted during review";
  updated_at = now;
}

abbrev pub is_reviewing : ReviewJob → Bool
is_reviewing j = j.state =s reviewing

-- A claim without a delivery, and one without a completion.
abbrev pub holds_outbox : OutboxRow → Bool
holds_outbox r = is_none r.delivered_at && not (is_none r.claimed_at)

abbrev pub holds_reconciliation : ReconciliationRow → Bool
holds_reconciliation r = is_none r.completed_at && not (is_none r.claimed_at)

abbrev pub release_outbox : OutboxRow → OutboxRow
release_outbox r = record r { claimed_at = none }

abbrev pub release_reconciliation : ReconciliationRow → ReconciliationRow
release_reconciliation r = record r { claimed_at = none; lease_expires_at = none }

unfoldable pub recover_after_restart : ℕ → StateStore → RecoveryReport × StateStore
unfolding update_rows
recover_after_restart now s =
    let jobs = update_rows is_reviewing (interrupted now) s.jobs in
    (
      record {
        requeued_job_ids = map (λ j. j.id) (select is_reviewing s.jobs);
        reconciliation_job_ids =
            map (λ j. j.id) (select (λ j. state_in j.state (waiting_ci ∷ merging ∷ [])) jobs);
      },
      record s {
        jobs = jobs;
        outbox = update_rows holds_outbox release_outbox s.outbox;
        reconciliations = update_rows holds_reconciliation release_reconciliation s.reconciliations;
      },
    )
