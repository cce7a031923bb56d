-- ===== src/Store/Ingest.antt =====
-- reviewer/state.py: the ingestion of a webhook delivery and its archive.
pub mod Targets
pub mod Keeps
pub mod Replay
use dohwa_hermes_stack.Base.{
  ℕ, ◌+◌, ◌≡◌, Bool, true, false, not, ◌&&◌, ◌||◌, Option, none, some, List, [], ◌∷◌, ◌++◌, map,
  String, ◌==◌, ◌=t◌, opt_eq, coalesce, is_none, is_some, any, all, find_row, update_rows, max_key,
  Result, ok, err, type_error, assertion_error, ◌>>=◌, ◌>>◌, if◌then◌else◌,
}
use dohwa_hermes_stack.Models.{
  ReviewState, discovered, waiting_ready, queued, merged, closed, ReviewJob, WebhookEvent,
  IngestResult, state_in, ◌=s◌, active_states, validate_transition, has_pull_request, flag_truth,
}
use dohwa_hermes_stack.Store.Tables.{WebhookDelivery, StateStore}
use dohwa_hermes_stack.Store.Invalidate.{
  invalidate_job_attempts, invalidate_if_job_left_review_context, obsolete_other_heads,
}
use dohwa_hermes_stack.Store.Ingest.Targets.{
  action_in, action_is, base_changed, event_may_transition, initial_state, move_job, new_job,
  rebase_job, replacement_state, stamp_if,
}

abbrev pub is_delivery : String → WebhookDelivery → Bool
is_delivery i d = d.delivery_id =t i

abbrev pub is_job : ℕ → ReviewJob → Bool
is_job i j = j.id == i

-- The job of an earlier delivery: a left join over its `job_id`.
unfoldable pub delivered_job : String → StateStore → Option ReviewJob
delivered_job i s = elim (find_row (is_delivery i) s.deliveries) [
  | none ↦ none
  | some d ↦ elim d.job_id [ none ↦ none | some k ↦ find_row (is_job k) s.jobs ]
]

-- The inserted row of `webhook_deliveries`.
unfoldable pub record_delivery : ℕ → WebhookEvent → StateStore → StateStore
record_delivery now e s = record s {
  deliveries =
      s.deliveries
      ++ (record {
        delivery_id = e.delivery_id;
        event_name = e.event_name;
        action = e.action;
        repository = e.repository;
        pull_number = e.pull_number;
        head_sha = e.head_sha;
        job_id = none;
        received_at = now;
      })
        ∷ [];
}

abbrev pub has_row {ℓ} : {A : Type ℓ} → (A → Bool) → List A → Bool
has_row p rows = any p rows

unfoldable pub has_delivery : String → StateStore → Bool
has_delivery i s = has_row (is_delivery i) s.deliveries

unfoldable pub archive_webhook_delivery : ℕ → WebhookEvent → StateStore → Bool × StateStore
unfolding has_delivery record_delivery
archive_webhook_delivery now e s =
    if has_delivery e.delivery_id s then (false, s) else (true, record_delivery now e s)

-- The known identities of a repository's jobs.
unfoldable pub repository_identities : String → List ReviewJob → List ℕ
repository_identities repository [] = []
repository_identities repository (j ∷ js) =
    let rest = repository_identities repository js in
    if j.repository =t repository
    then elim j.repository_id [ none ↦ rest | some i ↦ i ∷ rest ]
    else rest

-- `identities and (repository_id is None or identities != {repository_id})`.
abbrev pub identity_conflict : List ℕ → Option ℕ → Bool
identity_conflict [] i = false
identity_conflict (k ∷ ks) none = true
identity_conflict (k ∷ ks) (some i) = not (all (λ m. m == i) (k ∷ ks))

abbrev pub is_head : String → ℕ → String → ReviewJob → Bool
is_head repository pull_number head j =
    j.repository =t repository && (j.pull_number == pull_number && j.head_sha =t head)

unfoldable pub merge_job : ℕ → WebhookEvent → ReviewJob → ReviewJob
merge_job now e j = record j {
  merge_sha = coalesce e.merge_sha j.merge_sha;
  last_error = none;
  finished_at = coalesce j.finished_at (some now);
  updated_at = now;
}

unfoldable pub link_delivery : String → ℕ → StateStore → StateStore
unfolding update_rows
link_delivery i job_id s = record s {
  deliveries = update_rows (is_delivery i) (λ d. record d { job_id = some job_id }) s.deliveries;
}

abbrev pub ignored : IngestResult
ignored = record { accepted_delivery = true; created_job = false; job = none }

-- `if target is ReviewState.MERGED: ...`.
unfoldable pub store_merge : ℕ → WebhookEvent → ReviewState → ℕ → List ReviewJob → List ReviewJob
unfolding merge_job update_rows
store_merge now e target job_id jobs =
    if target =s merged then update_rows (is_job job_id) (merge_job now e) jobs else jobs

-- The last statements, for the row that is read back. A row that is not there raises `TypeError`.
unfoldable pub settle_ingest :
    ℕ → WebhookEvent → ℕ → Bool → StateStore → Option ReviewJob → Result (IngestResult × StateStore)
unfolding link_delivery
settle_ingest now e job_id created s none = err type_error
settle_ingest now e job_id created s (some persisted) = do
  t ← invalidate_if_job_left_review_context job_id persisted.state now s
  ok (
    record { accepted_delivery = true; created_job = created; job = some persisted },
    link_delivery e.delivery_id job_id t,
  )

-- The steps after the job is stored.
unfoldable pub finish_ingest :
    ℕ → WebhookEvent → ReviewState → ℕ → Bool → StateStore → Result (IngestResult × StateStore)
unfolding settle_ingest store_merge
finish_ingest now e target job_id created s =
    let jobs = store_merge now e target job_id s.jobs in
    settle_ingest now e job_id created (record s { jobs = jobs }) (find_row (is_job job_id) jobs)

-- A head whose base moved: its attempts end, and the job starts over.
unfoldable pub ingest_rebased :
    ℕ → WebhookEvent → ReviewState → ReviewJob → StateStore → Result (IngestResult × StateStore)
unfolding finish_ingest rebase_job update_rows
ingest_rebased now e target j s = do
  t ← invalidate_job_attempts (j.id ∷ []) "BASE_CONTEXT_CHANGED" now s
  finish_ingest now e target j.id false
      (record t { jobs = update_rows (is_job j.id) (rebase_job now e target) t.jobs })

-- A head whose job the event moves to another state.
unfoldable pub ingest_moved :
    ℕ → WebhookEvent → ReviewState → ReviewJob → StateStore → Result (IngestResult × StateStore)
unfolding finish_ingest move_job update_rows
ingest_moved now e target j s = do
  validate_transition j.state target
  finish_ingest now e target j.id false
      (record s { jobs = update_rows (is_job j.id) (move_job now e target) s.jobs })

-- A head whose base did not move.
unfoldable pub ingest_at_base :
    ℕ → WebhookEvent → ReviewJob → StateStore → Result (IngestResult × StateStore)
unfolding ingest_moved initial_state finish_ingest event_may_transition
ingest_at_base now e j s =
    if not (j.state =s initial_state e) && event_may_transition e.action j.state (initial_state e)
    then ingest_moved now e (initial_state e) j s
    else finish_ingest now e (initial_state e) j.id false s

-- Two known identities that differ.
abbrev pub identity_changed : ReviewJob → WebhookEvent → Bool
identity_changed j e =
    is_some j.repository_id
    && (is_some e.repository_id && not (opt_eq ◌==◌ j.repository_id e.repository_id))

-- The branch for a head that has a job.
unfoldable pub ingest_existing :
    ℕ → WebhookEvent → ReviewJob → StateStore → Result (IngestResult × StateStore)
unfolding ingest_rebased ingest_at_base base_changed
ingest_existing now e j s =
    if identity_changed j e
    then ok (ignored, s)
    else if base_changed e j
    then ingest_rebased now e (replacement_state (initial_state e)) j s
    else ingest_at_base now e j s

-- The branch for a head that has no job.
unfoldable pub ingest_new :
    ℕ → WebhookEvent → String → ℕ → String → StateStore → Result (IngestResult × StateStore)
unfolding finish_ingest new_job initial_state max_key
ingest_new now e repository pull_number head s =
    let id = max_key (λ j. j.id) s.jobs + 1 in
    finish_ingest now e (initial_state e) id true (record s {
      jobs = s.jobs ++ new_job now e repository pull_number head (initial_state e) id ∷ [];
    })

-- A new head of a pull request makes the jobs of its other heads obsolete.
unfoldable pub start_head : ℕ → WebhookEvent → String → ℕ → String → StateStore → Result StateStore
unfolding obsolete_other_heads
start_head now e repository pull_number head s =
    if action_in e.action ("opened" ∷ "reopened" ∷ "ready_for_review" ∷ "synchronize" ∷ [])
    then obsolete_other_heads repository pull_number head e.repository_id now s
    else ok s

-- The branches on the row that is found for the head.
unfoldable pub ingest_head :
    ℕ
    → WebhookEvent
    → String
    → ℕ
    → String
    → StateStore
    → Option ReviewJob
    → Result (IngestResult × StateStore)
unfolding ingest_existing ingest_new
ingest_head now e repository pull_number head s none =
    ingest_new now e repository pull_number head s
ingest_head now e repository pull_number head s (some j) = ingest_existing now e j s

-- A pull request's event. The source asserts that the three fields are there.
unfoldable pub ingest_pull :
    ℕ
    → WebhookEvent
    → Option String
    → Option ℕ
    → Option String
    → StateStore
    → Result (IngestResult × StateStore)
unfolding start_head ingest_head repository_identities find_row
ingest_pull now e (some repository) (some pull_number) (some head) s =
    if identity_conflict (repository_identities repository s.jobs) e.repository_id
    then ok (ignored, s)
    else start_head now e repository pull_number head s >>= λ t.
        ingest_head now e repository pull_number head t
          (find_row (is_head repository pull_number head) t.jobs)
ingest_pull now e _ _ _ s = err assertion_error

unfoldable pub ingest : ℕ → WebhookEvent → StateStore → Result (IngestResult × StateStore)
unfolding ingest_pull delivered_job record_delivery has_delivery
ingest now e s =
    if has_delivery e.delivery_id s
    then ok (
      record {
        accepted_delivery = false;
        created_job = false;
        job = delivered_job e.delivery_id s;
      },
      s,
    )
    else if not (has_pull_request e) || not (e.event_name =t "pull_request")
    then ok (ignored, record_delivery now e s)
    else ingest_pull now e e.repository e.pull_number e.head_sha (record_delivery now e s)
