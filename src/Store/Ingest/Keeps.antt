-- ===== src/Store/Ingest/Keeps.antt =====
-- The ingestion of any webhook delivery keeps the invariant of the state store.
use dohwa_hermes_stack.Base.{
  ℕ, ◌+◌, ◌≡◌, refl, Bool, true, false, not, ◌&&◌, ◌||◌, Option, none, some, List, [], ◌∷◌, map,
  String, arith, ◌=t◌, select, All-imp, find_row, key-le-max_key, max_key, update_rows, ok, ◌>>=◌,
  >>=-eq-ok, if◌then◌else◌, Bool-cases, inl, inr, if_ok, subst,
}
use dohwa_hermes_stack.Models.{
  ReviewState, merged, ReviewJob, WebhookEvent, IngestResult, has_pull_request, validate_transition,
  ◌=s◌,
}
use dohwa_hermes_stack.Store.Tables.{ReviewAttempt, StateStore}
use dohwa_hermes_stack.Store.Invalidate.{
  id_in, left_reason, invalidate_job_attempts, invalidate_if_job_left_review_context, is_other_head,
  obsolete_job, obsolete_other_heads,
}
use dohwa_hermes_stack.Store.Invalidate.Effects.{
  ended, invalidate_job_attempts-EndsAttempts, invalidate_if_job_left_review_context-Settles,
}
use dohwa_hermes_stack.Store.Consistent.{fits, fits_but, Consistent, IsConsistent}
use dohwa_hermes_stack.Store.Consistent.Keeps.{
  append-Consistent, weaken-Consistent, update-Consistent, update_jobs-Consistent, settled,
  settled-Consistent,
}
use dohwa_hermes_stack.Store.Ingest.{
  is_job, is_head, has_delivery, delivered_job, record_delivery, repository_identities,
  identity_conflict, merge_job, link_delivery, ignored, store_merge, settle_ingest, finish_ingest,
  ingest_rebased, ingest_moved, ingest_at_base, identity_changed, ingest_existing, ingest_new,
  ingest_head, start_head, ingest_pull, ingest,
}
use dohwa_hermes_stack.Store.Ingest.Targets.{
  action_in, initial_state, event_may_transition, new_job, base_changed, replacement_state,
  rebase_job, move_job,
}

-- Jobs of other heads become obsolete with their attempts ended.
pub obsolete_other_heads-IsConsistent :
    (repository : String) (pull_number : ℕ) (head : String) (repository_id : Option ℕ) (now : ℕ)
    (s t : StateStore)
    → obsolete_other_heads repository pull_number head repository_id now s ≡ ok t
    → IsConsistent s
    → IsConsistent t
unfolding obsolete_other_heads
obsolete_other_heads-IsConsistent repository pull_number head repository_id now s t h c =
    let ids =
      map (λ (j : ReviewJob). j.id)
        (select (is_other_head repository pull_number head repository_id) s.jobs) in
    let (u, p, q) = >>=-eq-ok (invalidate_job_attempts ids "JOB_OBSOLETE_NEW_HEAD" now s) _ h in
    let e = invalidate_job_attempts-EndsAttempts ids "JOB_OBSOLETE_NEW_HEAD" now s u p in
    let jobs : t.jobs ≡ update_rows (λ j. id_in j.id ids) (obsolete_job now) s.jobs =
      ground arith in
    let attempts : t.attempts ≡ ended ids "JOB_OBSOLETE_NEW_HEAD" now s.attempts = ground arith in
    rw (jobs, attempts)
      (update-Consistent fits fits (λ j. id_in j.id ids) (obsolete_job now) ids
        "JOB_OBSOLETE_NEW_HEAD" now (λ j. refl) (λ j a f. ground arith) s.jobs s.attempts c)

store_merge-Consistent :
    (now : ℕ) (e : WebhookEvent) (target : ReviewState) (k : ℕ) (jobs : List ReviewJob)
    (attempts : List ReviewAttempt)
    → Consistent (fits_but k) jobs attempts
    → Consistent (fits_but k) (store_merge now e target k jobs) attempts
unfolding store_merge
store_merge-Consistent now e target k jobs attempts c = elim (Bool-cases (target =s merged)) [
  | inl m ↦ rw m (
      update_jobs-Consistent (fits_but k) (fits_but k) (is_job k) (merge_job now e) (λ j. refl)
        (λ j a f. ground arith) jobs attempts c)
  | inr n ↦ rw n c
]

settle_ingest-IsConsistent :
    (now : ℕ) (e : WebhookEvent) (k : ℕ) (created : Bool) (s : StateStore) (x : Option ReviewJob)
    (r : IngestResult × StateStore)
    → settle_ingest now e k created s x ≡ ok r
    → find_row (is_job k) s.jobs ≡ x
    → Consistent (fits_but k) s.jobs s.attempts
    → IsConsistent r.1
unfolding settle_ingest link_delivery
settle_ingest-IsConsistent now e k created s none r h found c = absurd (cc)
settle_ingest-IsConsistent now e k created s (some x) r h found c =
    let (t, p, q) = >>=-eq-ok (invalidate_if_job_left_review_context k x.state now s) _ h in
    let w = invalidate_if_job_left_review_context-Settles k x.state now s t p in
    let jobs : r.1.jobs ≡ s.jobs = ground arith in
    let attempts : r.1.attempts ≡ settled k x.state (left_reason x.state) now s.attempts =
      ground (arith, w.attempts) in
    rw (jobs, attempts) (settled-Consistent k x (left_reason x.state) now s.jobs s.attempts found c)

-- The last steps restore the invariant after the job `k` was written.
finish_ingest-IsConsistent :
    (now : ℕ) (e : WebhookEvent) (target : ReviewState) (k : ℕ) (created : Bool) (s : StateStore)
    (r : IngestResult × StateStore)
    → finish_ingest now e target k created s ≡ ok r
    → Consistent (fits_but k) s.jobs s.attempts
    → IsConsistent r.1
unfolding finish_ingest
finish_ingest-IsConsistent now e target k created s r h c =
    let jobs = store_merge now e target k s.jobs in
    settle_ingest-IsConsistent now e k created (record s { jobs = jobs }) (find_row (is_job k) jobs)
      r h refl (store_merge-Consistent now e target k s.jobs s.attempts c)

module _ (now : ℕ) (e : WebhookEvent) (r : IngestResult × StateStore) where
  ingest_rebased-IsConsistent :
      (target : ReviewState) (j : ReviewJob) (s : StateStore)
      → ingest_rebased now e target j s ≡ ok r
      → IsConsistent s
      → IsConsistent r.1
  unfolding ingest_rebased
  ingest_rebased-IsConsistent target j s h c =
      let (t, p, q) =
        >>=-eq-ok (invalidate_job_attempts (j.id ∷ []) "BASE_CONTEXT_CHANGED" now s) _ h in
      let w = invalidate_job_attempts-EndsAttempts (j.id ∷ []) "BASE_CONTEXT_CHANGED" now s t p in
      finish_ingest-IsConsistent now e target j.id false _ r q (
        rw (w.jobs, w.attempts)
          (update-Consistent fits (fits_but j.id) (is_job j.id) (rebase_job now e target)
            (j.id ∷ []) "BASE_CONTEXT_CHANGED" now (λ y. refl) (λ y a f. ground arith) s.jobs
            s.attempts c))

  ingest_moved-IsConsistent :
      (target : ReviewState) (j : ReviewJob) (s : StateStore)
      → ingest_moved now e target j s ≡ ok r
      → IsConsistent s
      → IsConsistent r.1
  unfolding ingest_moved
  ingest_moved-IsConsistent target j s h c =
      let (_, p, q) = >>=-eq-ok (validate_transition j.state target) _ h in
      finish_ingest-IsConsistent now e target j.id false _ r q (
        update_jobs-Consistent fits (fits_but j.id) (is_job j.id) (move_job now e target)
          (λ y. refl) (λ y a f. ground arith) s.jobs s.attempts c)

  ingest_at_base-IsConsistent :
      (j : ReviewJob) (s : StateStore)
      → ingest_at_base now e j s ≡ ok r
      → IsConsistent s
      → IsConsistent r.1
  unfolding ingest_at_base
  ingest_at_base-IsConsistent j s h c =
      if_ok
        (not (j.state =s initial_state e)
          && event_may_transition e.action j.state (initial_state e))
        (ingest_moved now e (initial_state e) j s)
        (finish_ingest now e (initial_state e) j.id false s) h
        (λ _ z. ingest_moved-IsConsistent (initial_state e) j s z c)
        (λ _ z.
          finish_ingest-IsConsistent now e (initial_state e) j.id false s r z
            (weaken-Consistent j.id s.jobs s.attempts c))

  unchanged-IsConsistent :
      (x : IngestResult) (s : StateStore) → ok (x, s) ≡ ok r → IsConsistent s → IsConsistent r.1
  unchanged-IsConsistent x s h c = let same : s ≡ r.1 = ground arith in subst IsConsistent same c

  ingest_existing-IsConsistent :
      (j : ReviewJob) (s : StateStore)
      → ingest_existing now e j s ≡ ok r
      → IsConsistent s
      → IsConsistent r.1
  unfolding ingest_existing
  ingest_existing-IsConsistent j s h c =
      let rebased = ingest_rebased now e (replacement_state (initial_state e)) j s in
      let kept = ingest_at_base now e j s in
      if_ok (identity_changed j e) (ok (ignored, s)) (if base_changed e j then rebased else kept) h
        (λ _ x. unchanged-IsConsistent ignored s x c)
        λ _ x.
          if_ok (base_changed e j) rebased kept x
            (λ _ y. ingest_rebased-IsConsistent (replacement_state (initial_state e)) j s y c)
            (λ _ y. ingest_at_base-IsConsistent j s y c)

  ingest_new-IsConsistent :
      (repository : String) (pull_number : ℕ) (head : String) (s : StateStore)
      → ingest_new now e repository pull_number head s ≡ ok r
      → IsConsistent s
      → IsConsistent r.1
  unfolding ingest_new new_job
  ingest_new-IsConsistent repository pull_number head s h c =
      let k = max_key (λ (j : ReviewJob). j.id) s.jobs + 1 in
      let x = new_job now e repository pull_number head (initial_state e) k in
      finish_ingest-IsConsistent now e (initial_state e) k true _ r h (
        append-Consistent x s.jobs s.attempts
          (All-imp _ _ (λ j b. λ same. absurd (omega (arith, b))) s.jobs
            (key-le-max_key (λ j. j.id) s.jobs))
          c)

  ingest_head-IsConsistent :
      (repository : String) (pull_number : ℕ) (head : String) (s : StateStore)
      (x : Option ReviewJob)
      → ingest_head now e repository pull_number head s x ≡ ok r
      → IsConsistent s
      → IsConsistent r.1
  unfolding ingest_head
  ingest_head-IsConsistent repository pull_number head s none h c =
      ingest_new-IsConsistent repository pull_number head s h c
  ingest_head-IsConsistent repository pull_number head s (some j) h c =
      ingest_existing-IsConsistent j s h c

  starts_head-IsConsistent :
      (repository : String) (pull_number : ℕ) (head : String) (s t : StateStore)
      → start_head now e repository pull_number head s ≡ ok t
      → IsConsistent s
      → IsConsistent t
  unfolding start_head
  starts_head-IsConsistent repository pull_number head s t h c =
      if_ok (action_in e.action ("opened" ∷ "reopened" ∷ "ready_for_review" ∷ "synchronize" ∷ []))
        (obsolete_other_heads repository pull_number head e.repository_id now s) (ok s) h
        (λ _ x.
          obsolete_other_heads-IsConsistent repository pull_number head e.repository_id now s t x c)
        (λ _ x. let same : s ≡ t = ground arith in subst IsConsistent same c)

  ingest_pull-IsConsistent :
      (repository : Option String) (pull_number : Option ℕ) (head : Option String) (s : StateStore)
      → ingest_pull now e repository pull_number head s ≡ ok r
      → IsConsistent s
      → IsConsistent r.1
  unfolding ingest_pull
  ingest_pull-IsConsistent (some repository) (some pull_number) (some head) s h c =
      if_ok (identity_conflict (repository_identities repository s.jobs) e.repository_id)
        (ok (ignored, s))
        (start_head now e repository pull_number head s >>= λ t.
          ingest_head now e repository pull_number head t
            (find_row (is_head repository pull_number head) t.jobs))
        h (λ _ x. unchanged-IsConsistent ignored s x c)
        λ _ x.
          let (t, p, q) = >>=-eq-ok (start_head now e repository pull_number head s) _ x in
          ingest_head-IsConsistent repository pull_number head t
            (find_row (is_head repository pull_number head) t.jobs) q
            (starts_head-IsConsistent repository pull_number head s t p c)
  ingest_pull-IsConsistent _ _ _ s h c = absurd (cc)

-- Every webhook delivery that is ingested, whatever it carries and whatever was stored before,
-- keeps the invariant.
pub ingest-IsConsistent :
    (now : ℕ) (e : WebhookEvent) (s : StateStore) (r : IngestResult × StateStore)
    → ingest now e s ≡ ok r
    → IsConsistent s
    → IsConsistent r.1
unfolding ingest record_delivery
ingest-IsConsistent now e s r h c =
    let again : IngestResult = record {
      accepted_delivery = false;
      created_job = false;
      job = delivered_job e.delivery_id s;
    } in
    let t = record_delivery now e s in
    let pull = ingest_pull now e e.repository e.pull_number e.head_sha t in
    let other = not (has_pull_request e) || not (e.event_name =t "pull_request") in
    if_ok (has_delivery e.delivery_id s) (ok (again, s)) (if other then ok (ignored, t) else pull) h
      (λ _ x. unchanged-IsConsistent now e r again s x c)
      λ _ x.
        if_ok other (ok (ignored, t)) pull x (λ _ y. unchanged-IsConsistent now e r ignored t y c)
          (λ _ y. ingest_pull-IsConsistent now e r e.repository e.pull_number e.head_sha t y c)
