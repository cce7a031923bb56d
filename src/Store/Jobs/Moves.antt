-- ===== src/Store/Jobs/Moves.antt =====
-- The methods of the orchestrator move jobs only along the table of allowed transitions.
use dohwa_hermes_stack.Base.{
  ℕ, ◌≡◌, refl, Bool, true, Option, none, some, List, [], ◌∷◌, arith, ◌==◌, All-intro, Zip,
  Zip-update, find_row, find_row-only, count_rows, update_rows, ok, >>=-eq-ok, require,
  runtime_error, Bool-cases, inl, inr, first_row,
}
use dohwa_hermes_stack.Models.{ReviewState, ReviewJob, validate_transition}
use dohwa_hermes_stack.Store.Tables.{StateStore}
use dohwa_hermes_stack.Store.Invalidate.{invalidate_if_job_left_review_context}
use dohwa_hermes_stack.Store.Invalidate.Effects.{invalidate_if_job_left_review_context-Settles}
use dohwa_hermes_stack.Store.Consistent.{IsConsistent}
use dohwa_hermes_stack.Store.Ingest.{is_job}
use dohwa_hermes_stack.Store.Jobs.{
  JobUpdate, moved, is_expected, transition_row, transition, is_queued_job, claimed, claim_row,
  claim_next, is_claimable, queued_before, is_reviewing, interrupted, recover_after_restart,
}

-- One job before and after: it keeps its identity and its head, and its state moves by a valid
-- transition or stays.
pub record Moves (j k : ReviewJob) : Type 0 where
  pub same_id : k.id ≡ j.id
  pub same_head : k.head_sha ≡ j.head_sha
  pub valid_move : validate_transition j.state k.state ≡ ok tt

stays : (j : ReviewJob) → Moves j j
unfolding validate_transition
stays j = record { same_id = refl; same_head = refl; valid_move = ground arith }

transition_row-Moves :
    (now k : ℕ) (target : ReviewState) (expected : Option ReviewState) (u : JobUpdate)
    (s : StateStore) (x : Option ReviewJob) (r : ReviewJob × StateStore)
    → transition_row now k target expected u s x ≡ ok r
    → find_row (is_job k) s.jobs ≡ x
    → IsConsistent s
    → Zip Moves s.jobs r.1.jobs
unfolding transition_row
transition_row-Moves now k target expected u s none r h found c = absurd (cc)
transition_row-Moves now k target expected u s (some row) r h found c =
    let jobs = update_rows (is_job k) (moved now target u) s.jobs in
    let (_, _, h1) =
      >>=-eq-ok
        (require (is_expected expected row.state)
          (runtime_error "job is not in the expected state"))
        _ h in
    let (_, valid, h2) = >>=-eq-ok (validate_transition row.state target) _ h1 in
    let (t, p, q) =
      >>=-eq-ok (invalidate_if_job_left_review_context k target now (record s { jobs = jobs })) _
        h2 in
    let w =
      invalidate_if_job_left_review_context-Settles k target now (record s { jobs = jobs }) t p in
    let moved_jobs : r.1.jobs ≡ jobs = ground (arith, w.jobs) in
    rw moved_jobs (
      Zip-update (λ j. j.id ≡ k → j ≡ row) Moves (is_job k) (moved now target u)
        (λ j only e. record {
          same_id = refl;
          same_head = refl;
          valid_move = let at : j ≡ row = only (ground arith) in rw at valid;
        })
        (λ j e. stays j) s.jobs (find_row-only (λ j. j.id) k s.jobs c.job_keys found))

-- On a consistent store, a transition that succeeds moves every job by a valid transition, or
-- leaves its state, and adds and drops no job.
pub transition-Moves :
    (now k : ℕ) (target : ReviewState) (expected : Option ReviewState) (u : JobUpdate)
    (s : StateStore) (r : ReviewJob × StateStore)
    → transition now k target expected u s ≡ ok r
    → IsConsistent s
    → Zip Moves s.jobs r.1.jobs
unfolding transition
transition-Moves now k target expected u s r h c =
    transition_row-Moves now k target expected u s (find_row (is_job k) s.jobs) r h refl c

all_stay : (jobs : List ReviewJob) → Zip Moves jobs jobs
all_stay [] = tt
all_stay (j ∷ js) = (stays j, all_stay js)

update-Moves :
    (p : ReviewJob → Bool) (f : ReviewJob → ReviewJob) (jobs : List ReviewJob)
    → ((j : ReviewJob) → p j ≡ true → Moves j (f j))
    → Zip Moves jobs (update_rows p f jobs)
update-Moves p f jobs each =
    Zip-update (λ _. Unit {0}) Moves p f (λ j _. each j) (λ j _. stays j) jobs
      (All-intro _ (λ j. tt) jobs)

claim_row-Moves :
    (now : ℕ) (s : StateStore) (x : Option ReviewJob) → Zip Moves s.jobs (claim_row now s x).1.jobs
unfolding claim_row claimed validate_transition
claim_row-Moves now s none = all_stay s.jobs
claim_row-Moves now s (some row) =
    elim (Bool-cases (count_rows (is_queued_job row.id) s.jobs == 1)) [
      | inl e ↦ rw e (
          update-Moves (is_queued_job row.id) (claimed now) s.jobs
            (λ j q. record { same_id = refl; same_head = refl; valid_move = ground arith }))
      | inr n ↦ rw n (all_stay s.jobs)
    ]

-- Claims and recoveries move jobs only by valid transitions too.
pub claim_and_recover-Moves :
    (now : ℕ) (s : StateStore)
    → Zip Moves s.jobs (claim_next now s).1.jobs
      × Zip Moves s.jobs (recover_after_restart now s).1.jobs
unfolding claim_next recover_after_restart validate_transition
claim_and_recover-Moves now s = (
  claim_row-Moves now s (first_row queued_before (is_claimable now) s.jobs),
  update-Moves is_reviewing (interrupted now) s.jobs
      (λ j q. record { same_id = refl; same_head = refl; valid_move = ground arith }),
)
