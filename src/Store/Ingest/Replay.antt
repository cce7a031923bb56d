-- ===== src/Store/Ingest/Replay.antt =====
-- A delivery that GitHub sends twice: the ingestion of it happens once.
use dohwa_hermes_stack.Base.{
  ℕ, ◌+◌, ◌≡◌, refl, sym, subst, ◌∙◌, Bool, true, false, not, ◌&&◌, ◌||◌, Option, none, some, List,
  [], ◌∷◌, ◌++◌, map, String, arith, eq_iff, ◌=t◌, any, select, find_row, any-find_row,
  find_row-update, update_rows, max_key, ok, err, invalid_state_transition, ◌>>=◌, >>=-eq-ok,
  if◌then◌else◌, Option-cases, if_ok,
}
use dohwa_hermes_stack.Models.{
  ReviewState, merged, closed, ReviewJob, WebhookEvent, IngestResult, has_pull_request,
  validate_transition, ◌=s◌,
}
use dohwa_hermes_stack.Store.Tables.{WebhookDelivery, StateStore}
use dohwa_hermes_stack.Store.Invalidate.{
  invalidate_job_attempts, invalidate_if_job_left_review_context, is_other_head,
  obsolete_other_heads,
}
use dohwa_hermes_stack.Store.Invalidate.Effects.{
  invalidate_job_attempts-EndsAttempts, invalidate_if_job_left_review_context-Settles,
}
use dohwa_hermes_stack.Store.Ingest.{
  is_delivery, is_job, is_head, has_delivery, delivered_job, record_delivery, repository_identities,
  identity_conflict, ignored, settle_ingest, finish_ingest, ingest_rebased, ingest_moved,
  ingest_at_base, identity_changed, ingest_existing, ingest_new, ingest_head, start_head,
  ingest_pull, ingest, link_delivery,
}
use dohwa_hermes_stack.Store.Ingest.Targets.{
  action_in, initial_state, event_may_transition, base_changed, replacement_state,
}

-- The delivery is recorded and has no job yet.
abbrev IsRecorded : String → List WebhookDelivery → Type 0
IsRecorded i rows =
    (d : WebhookDelivery) × (find_row (is_delivery i) rows ≡ some d) × (d.job_id ≡ none)

-- The delivery is recorded with the job of the result.
abbrev IsAnswered : String → IngestResult × StateStore → Type 0
IsAnswered i r = (has_delivery i r.1 ≡ true) × (delivered_job i r.1 ≡ r.0.job)

recorded_answer :
    (i : String) (s : StateStore) → IsRecorded i s.deliveries → IsAnswered i (ignored, s)
unfolding has_delivery delivered_job
recorded_answer i s (d, found, free) =
    (any-find_row (is_delivery i) s.deliveries found, rw (delivered_job, found, free) refl)

recorded_row :
    (now : ℕ) (e : WebhookEvent) (rows : List WebhookDelivery) (d : WebhookDelivery)
    → any (is_delivery e.delivery_id) rows ≡ false
    → is_delivery e.delivery_id d ≡ true
    → find_row (is_delivery e.delivery_id) (rows ++ d ∷ []) ≡ some d
unfolding find_row
recorded_row now e [] d h q = ground arith
recorded_row now e (x ∷ xs) d h q = ground (arith, recorded_row now e xs d)

record_delivery-IsRecorded :
    (now : ℕ) (e : WebhookEvent) (s : StateStore)
    → has_delivery e.delivery_id s ≡ false
    → IsRecorded e.delivery_id (record_delivery now e s).deliveries
unfolding record_delivery has_delivery
record_delivery-IsRecorded now e s h =
    (_, recorded_row now e s.deliveries _ h ((eq_iff e.delivery_id e.delivery_id).1 refl), refl)

module _ (now : ℕ) (e : WebhookEvent) (r : IngestResult × StateStore) where
  settle_ingest-IsAnswered :
      (k : ℕ) (created : Bool) (s : StateStore) (x : Option ReviewJob)
      → settle_ingest now e k created s x ≡ ok r
      → find_row (is_job k) s.jobs ≡ x
      → IsRecorded e.delivery_id s.deliveries
      → IsAnswered e.delivery_id r
  unfolding settle_ingest link_delivery has_delivery delivered_job
  settle_ingest-IsAnswered k created s none h found d = absurd (cc)
  settle_ingest-IsAnswered k created s (some x) h found (d, row, free) =
      let (t, p, q) = >>=-eq-ok (invalidate_if_job_left_review_context k x.state now s) _ h in
      let w = invalidate_if_job_left_review_context-Settles k x.state now s t p in
      let linked =
        find_row-update (is_delivery e.delivery_id)
          (λ (y : WebhookDelivery). record y { job_id = some k }) (λ y z. z) s.deliveries d row in
      let deliveries : r.1.deliveries
          ≡ update_rows (is_delivery e.delivery_id)
              (λ (y : WebhookDelivery). record y { job_id = some k }) s.deliveries =
        ground (arith, w.deliveries) in
      let jobs : r.1.jobs ≡ s.jobs = ground (arith, w.jobs) in
      let answer : r.0.job ≡ some x = ground arith in
      (
        rw deliveries (any-find_row (is_delivery e.delivery_id) _ linked),
        rw (delivered_job, deliveries, linked, jobs, answer) found,
      )

  finish_ingest-IsAnswered :
      (target : ReviewState) (k : ℕ) (created : Bool) (s : StateStore)
      → finish_ingest now e target k created s ≡ ok r
      → IsRecorded e.delivery_id s.deliveries
      → IsAnswered e.delivery_id r
  unfolding finish_ingest
  finish_ingest-IsAnswered target k created s h d = settle_ingest-IsAnswered k created _ _ h refl d

  ignored-IsAnswered :
      (s : StateStore)
      → ok (ignored, s) ≡ ok r
      → IsRecorded e.delivery_id s.deliveries
      → IsAnswered e.delivery_id r
  ignored-IsAnswered s h d =
      let same : (ignored, s) ≡ r = ground arith in
      subst (IsAnswered e.delivery_id) same (recorded_answer e.delivery_id s d)

  ingest_existing-IsAnswered :
      (j : ReviewJob) (s : StateStore)
      → ingest_existing now e j s ≡ ok r
      → IsRecorded e.delivery_id s.deliveries
      → IsAnswered e.delivery_id r
  unfolding ingest_existing ingest_rebased ingest_at_base ingest_moved
  ingest_existing-IsAnswered j s h d =
      let rebased = ingest_rebased now e (replacement_state (initial_state e)) j s in
      let kept = ingest_at_base now e j s in
      if_ok (identity_changed j e) (ok (ignored, s)) (if base_changed e j then rebased else kept) h
        (λ _ x. ignored-IsAnswered s x d)
        λ _ x.
          if_ok (base_changed e j) rebased kept x
            (λ _ y.
              let (t, p, q) =
                >>=-eq-ok (invalidate_job_attempts (j.id ∷ []) "BASE_CONTEXT_CHANGED" now s) _ y in
              let w =
                invalidate_job_attempts-EndsAttempts (j.id ∷ []) "BASE_CONTEXT_CHANGED" now s t p in
              finish_ingest-IsAnswered (replacement_state (initial_state e)) j.id false _ q
                (subst (IsRecorded e.delivery_id) (sym w.deliveries) d))
            (λ _ y.
              if_ok
                (not (j.state =s initial_state e)
                  && event_may_transition e.action j.state (initial_state e))
                (ingest_moved now e (initial_state e) j s)
                (finish_ingest now e (initial_state e) j.id false s) y
                (λ _ z.
                  let (_, _, q) = >>=-eq-ok (validate_transition j.state (initial_state e)) _ z in
                  finish_ingest-IsAnswered (initial_state e) j.id false _ q d)
                (λ _ z. finish_ingest-IsAnswered (initial_state e) j.id false s z d))

  ingest_head-IsAnswered :
      (repository : String) (pull_number : ℕ) (head : String) (s : StateStore)
      (x : Option ReviewJob)
      → ingest_head now e repository pull_number head s x ≡ ok r
      → IsRecorded e.delivery_id s.deliveries
      → IsAnswered e.delivery_id r
  unfolding ingest_head ingest_new
  ingest_head-IsAnswered repository pull_number head s none h d =
      finish_ingest-IsAnswered (initial_state e) (max_key (λ (j : ReviewJob). j.id) s.jobs + 1) true
        _ h d
  ingest_head-IsAnswered repository pull_number head s (some j) h d =
      ingest_existing-IsAnswered j s h d

  start_head-deliveries :
      (repository : String) (pull_number : ℕ) (head : String) (s t : StateStore)
      → start_head now e repository pull_number head s ≡ ok t
      → t.deliveries ≡ s.deliveries
  unfolding start_head obsolete_other_heads
  start_head-deliveries repository pull_number head s t h =
      let ids =
        map (λ (j : ReviewJob). j.id)
          (select (is_other_head repository pull_number head e.repository_id) s.jobs) in
      if_ok (action_in e.action ("opened" ∷ "reopened" ∷ "ready_for_review" ∷ "synchronize" ∷ []))
        (obsolete_other_heads repository pull_number head e.repository_id now s) (ok s) h
        (λ _ x.
          let (u, p, q) =
            >>=-eq-ok (invalidate_job_attempts ids "JOB_OBSOLETE_NEW_HEAD" now s) _ x in
          let w = invalidate_job_attempts-EndsAttempts ids "JOB_OBSOLETE_NEW_HEAD" now s u p in
          let same : t.deliveries ≡ u.deliveries = ground arith in same ∙ w.deliveries)
        (λ _ x. ground arith)

  ingest_pull-IsAnswered :
      (repository : Option String) (pull_number : Option ℕ) (head : Option String) (s : StateStore)
      → ingest_pull now e repository pull_number head s ≡ ok r
      → IsRecorded e.delivery_id s.deliveries
      → IsAnswered e.delivery_id r
  unfolding ingest_pull
  ingest_pull-IsAnswered (some repository) (some pull_number) (some head) s h d =
      if_ok (identity_conflict (repository_identities repository s.jobs) e.repository_id)
        (ok (ignored, s))
        (start_head now e repository pull_number head s >>= λ t.
          ingest_head now e repository pull_number head t
            (find_row (is_head repository pull_number head) t.jobs))
        h (λ _ x. ignored-IsAnswered s x d)
        λ _ x.
          let (t, p, q) = >>=-eq-ok (start_head now e repository pull_number head s) _ x in
          ingest_head-IsAnswered repository pull_number head t
            (find_row (is_head repository pull_number head) t.jobs) q
            (subst (IsRecorded e.delivery_id)
              (sym (start_head-deliveries repository pull_number head s t p)) d)
  ingest_pull-IsAnswered _ _ _ s h d = absurd (cc)

-- After an ingestion that succeeded, a later ingestion of a delivery with the same identity
-- succeeds, is not accepted, changes nothing in the store, and answers with the job of the first
-- one.
pub ingest_again :
    (now later : ℕ) (e f : WebhookEvent) (s : StateStore) (r : IngestResult × StateStore)
    → ingest now e s ≡ ok r
    → f.delivery_id ≡ e.delivery_id
    → ingest later f r.1
      ≡ ok (record { accepted_delivery = false; created_job = false; job = r.0.job }, r.1)
unfolding ingest
ingest_again now later e f s r h same =
    let again : IngestResult = record {
      accepted_delivery = false;
      created_job = false;
      job = delivered_job e.delivery_id s;
    } in
    let t = record_delivery now e s in
    let pull = ingest_pull now e e.repository e.pull_number e.head_sha t in
    let other = not (has_pull_request e) || not (e.event_name =t "pull_request") in
    let answered : IsAnswered e.delivery_id r =
      if_ok (has_delivery e.delivery_id s) (ok (again, s)) (if other then ok (ignored, t) else pull)
        h
        (λ known x.
          let q : (again, s) ≡ r = ground arith in subst (IsAnswered e.delivery_id) q (known, refl))
        λ new x.
          let d = record_delivery-IsRecorded now e s new in
          if_ok other (ok (ignored, t)) pull x (λ _ y. ignored-IsAnswered now e r t y d)
            (λ _ y. ingest_pull-IsAnswered now e r e.repository e.pull_number e.head_sha t y d) in
    rw (same, answered.0, answered.1) refl

-- What an event asks for and may do is a valid transition, with one exception: a `closed` event of
-- a merged pull request on a CLOSED job, which is refused as an invalid transition.
pub event_may_transition-validate_transition :
    (e : WebhookEvent) (s : ReviewState)
    → event_may_transition e.action s (initial_state e) ≡ true
    → validate_transition s (initial_state e)
      ≡ (if s =s closed && initial_state e =s merged then err invalid_state_transition else ok tt)
unfolding event_may_transition initial_state validate_transition
event_may_transition-validate_transition e s h = ground (arith, Option-cases e.action)
