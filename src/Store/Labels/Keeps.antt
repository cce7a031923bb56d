-- ===== src/Store/Labels/Keeps.antt =====
-- The operations on labels keep the invariant of the state store, but for a new approval.
use dohwa_hermes_stack.Base.{
  ℕ, ◌≡◌, refl, subst, Bool, Option, none, some, [], ◌∷◌, String, arith, find_row, find_row-update,
  find_row-key, first_row, update_rows, ok, >>=-eq-ok, if◌then◌else◌, if_ok,
}
use dohwa_hermes_stack.Models.{WebhookEvent, ReviewJob, human_review}
use dohwa_hermes_stack.Store.Tables.{StateStore}
use dohwa_hermes_stack.Store.Tables.Signed.{rejected}
use dohwa_hermes_stack.Store.Ingest.{is_job}
use dohwa_hermes_stack.Store.Invalidate.{has_left, invalidate_job_attempts}
use dohwa_hermes_stack.Store.Invalidate.Effects.{invalidate_job_attempts-EndsAttempts}
use dohwa_hermes_stack.Store.Consistent.{fits, fits_but, IsConsistent}
use dohwa_hermes_stack.Store.Consistent.Keeps.{update_jobs-Consistent, settled, settled-Consistent}
use dohwa_hermes_stack.Store.Labels.Record.{
  Ticket, LabelResult, hand_over, may_be_handed_over, move_row_to_human, move_job_to_human,
  job_after, is_job_of, record_evidence, insert_outbox, rejection_payload, reject,
}
use dohwa_hermes_stack.Store.Labels.Effects.{insert_outbox-Quiet}
use dohwa_hermes_stack.Store.Labels.Decided.{record_evidence-Records}

pub same-IsConsistent :
    (s t : StateStore) → t.jobs ≡ s.jobs → t.attempts ≡ s.attempts → IsConsistent s → IsConsistent t
same-IsConsistent s t jobs attempts c = rw (jobs, attempts) c

moved-IsConsistent :
    (now : ℕ) (reason : String) (s t : StateStore) (j : ReviewJob)
    → find_row (is_job j.id) s.jobs ≡ some j
    → invalidate_job_attempts
        (j.id ∷ [])
        reason
        now
        (record s { jobs = update_rows (is_job j.id) (hand_over now reason) s.jobs })
      ≡ ok t
    → IsConsistent s
    → IsConsistent t
unfolding has_left
moved-IsConsistent now reason s t j found h c =
    let jobs = update_rows (is_job j.id) (hand_over now reason) s.jobs in
    let w =
      invalidate_job_attempts-EndsAttempts (j.id ∷ []) reason now (record s { jobs = jobs }) t h in
    let kept : t.attempts ≡ settled j.id human_review reason now s.attempts = w.attempts in
    rw (w.jobs, kept)
      (settled-Consistent j.id (hand_over now reason j) reason now jobs s.attempts
        (find_row-update (is_job j.id) (hand_over now reason) (λ x e. e) s.jobs j found)
        (update_jobs-Consistent fits (fits_but j.id) (is_job j.id) (hand_over now reason)
          (λ j. refl) (λ j a f. ground arith) s.jobs s.attempts c))

pub ok-IsConsistent : (s t : StateStore) → ok s ≡ ok t → IsConsistent s → IsConsistent t
ok-IsConsistent s t h c = let same : s ≡ t = ground arith in subst IsConsistent same c

move_row_to_human-IsConsistent :
    (now : ℕ) (reason : String) (s t : StateStore) (x : Option ReviewJob)
    → ((j : ReviewJob) → x ≡ some j → find_row (is_job j.id) s.jobs ≡ some j)
    → move_row_to_human now reason s x ≡ ok t
    → IsConsistent s
    → IsConsistent t
unfolding move_row_to_human
move_row_to_human-IsConsistent now reason s t none found h c = ok-IsConsistent s t h c
move_row_to_human-IsConsistent now reason s t (some j) found h c =
    if_ok (may_be_handed_over j.state)
      (invalidate_job_attempts (j.id ∷ []) reason now
        (record s { jobs = update_rows (is_job j.id) (hand_over now reason) s.jobs }))
      (ok s) h (λ _ x. moved-IsConsistent now reason s t j (found j refl) x c)
      (λ _ x. ok-IsConsistent s t x c)

move_job_to_human-IsConsistent :
    (now : ℕ) (e : WebhookEvent) (reason : String) (s t : StateStore)
    → move_job_to_human now e reason s ≡ ok t
    → IsConsistent s
    → IsConsistent t
unfolding move_job_to_human
move_job_to_human-IsConsistent now e reason s t h c =
    move_row_to_human-IsConsistent now reason s t (first_row job_after (is_job_of e) s.jobs)
      (λ j found. find_row-key (λ x. x.id) job_after (is_job_of e) s.jobs j c.job_keys found) h c

-- A rejection keeps the invariant.
pub reject-IsConsistent :
    (k : Ticket) (reason : String) (event_id : Option String) (generation : Option ℕ)
    (affects : Bool) (s : StateStore) (r : LabelResult × StateStore)
    → reject k reason event_id generation affects s ≡ ok r
    → IsConsistent s
    → IsConsistent r.1
unfolding reject
reject-IsConsistent k reason event_id generation affects s r h c =
    let (t, p, h1) = >>=-eq-ok (record_evidence k event_id none rejected (some reason) s) _ h in
    let (u, q, h2) =
      >>=-eq-ok
        (insert_outbox none k.webhook.delivery_id "DISCORD_REPORT" k.webhook.repository
          k.webhook.pull_number k.webhook.label_name (rejection_payload reason k.webhook) k.now t)
        _ h1 in
    let (v, m, h3) =
      >>=-eq-ok (if affects then move_job_to_human k.now k.webhook reason u else ok u) _ h2 in
    let (_, jobs, attempts) =
      record_evidence-Records k event_id none rejected (some reason) s t p in
    let x =
      insert_outbox-Quiet none k.webhook.delivery_id "DISCORD_REPORT" k.webhook.repository
        k.webhook.pull_number k.webhook.label_name (rejection_payload reason k.webhook) k.now t u
        q in
    let there = same-IsConsistent t u x.jobs x.attempts (same-IsConsistent s t jobs attempts c) in
    let done : IsConsistent v =
      if_ok affects (move_job_to_human k.now k.webhook reason u) (ok u) m
        (λ _ z. move_job_to_human-IsConsistent k.now k.webhook reason u v z there)
        (λ _ z. ok-IsConsistent u v z there) in
    let same : v ≡ r.1 = ground arith in subst IsConsistent same done
