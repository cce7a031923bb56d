-- ===== src/Examples/Jobs.antt =====
-- A store with one job, and what the queue does with it.
use dohwa_hermes_stack.Base.{
  ◌+◌, ◌≡◌, refl, true, false, none, some, [], ◌∷◌, All, Zip, update_rows, is_none, find_row,
}
use dohwa_hermes_stack.Models.{
  ReviewState, queued, reviewing, waiting_ci, ReviewJob, validate_transition,
}
use dohwa_hermes_stack.Store.Tables.{StateStore, empty_store}
use dohwa_hermes_stack.Store.Ingest.{is_job}
use dohwa_hermes_stack.Store.Invalidate.{invalidate_if_job_left_review_context}
use dohwa_hermes_stack.Store.Consistent.{IsConsistent}
use dohwa_hermes_stack.Store.Jobs.{
  JobUpdate, transition, claim_next, claim_row, claimed, moved, is_claimable, is_queued_job,
  queued_before, recover_after_restart, is_reviewing,
}
use dohwa_hermes_stack.Store.Jobs.Claims.{
  Recovers, claim_next-none, claim_next-some, recover_after_restart_lem,
}
use dohwa_hermes_stack.Store.Jobs.Moves.{Moves, transition-Moves}
use dohwa_hermes_stack.Examples.Data.{job_in, store_with}

lone-IsConsistent : (state : ReviewState) → IsConsistent (store_with state [])
lone-IsConsistent state = record {
  job_keys = (tt, tt);
  no_stale = (tt, tt);
  one_open = tt;
  shapes = tt;
  known = tt;
}

claim_next-some_example :
    (row : ReviewJob) × (find_row (is_job row.id) (store_with queued []).jobs ≡ some row)
    × (is_claimable 200 row ≡ true)
    × (claimed 200 (job_in 1 queued) ≡ claimed 200 row)
    × ((claimed 200 (job_in 1 queued)).state ≡ reviewing)
    × ((claimed 200 (job_in 1 queued)).attempt_count ≡ row.attempt_count + 1)
    × ((claimed 200 (job_in 1 queued)).id ≡ row.id)
    × ((claimed 200 (job_in 1 queued)).head_sha ≡ row.head_sha)
    × ((claimed 200 (job_in 1 queued)).repository ≡ row.repository)
    × ((claimed 200 (job_in 1 queued)).pull_number ≡ row.pull_number)
    × All (λ k. is_claimable 200 k ≡ true → queued_before k row ≡ false) (store_with queued []).jobs
    × ((claim_next 200 (store_with queued [])).1 ≡ record (store_with queued []) {
      jobs = update_rows (is_queued_job row.id) (claimed 200) (store_with queued []).jobs;
    })
unfolding claim_next claim_row
claim_next-some_example =
    claim_next-some 200 (store_with queued []) (claimed 200 (job_in 1 queued))
      (lone-IsConsistent queued) refl

claim_next-none_example :
    ((claim_next 200 (store_with reviewing [])).1 ≡ store_with reviewing [])
    × All (λ j. is_claimable 200 j ≡ false) (store_with reviewing []).jobs
unfolding claim_next claim_row
claim_next-none_example =
    claim_next-none 200 (store_with reviewing []) (lone-IsConsistent reviewing) refl

recover_after_restart_lem_example :
    let t = (recover_after_restart 200 (store_with reviewing [])).1 in
    All (λ j. is_reviewing j ≡ false) t.jobs
    × All (λ r. is_none r.delivered_at ≡ true → r.claimed_at ≡ none) t.outbox
    × All (λ r. is_none r.completed_at ≡ true → r.claimed_at ≡ none) t.reconciliations
    × Zip (Recovers 300) (store_with reviewing []).jobs t.jobs
    × ((recover_after_restart 300 t).0.requeued_job_ids ≡ [])
recover_after_restart_lem_example = recover_after_restart_lem 200 300 (store_with reviewing [])

abbrev no_update : JobUpdate
no_update = record {
  review_decision = none;
  findings_hash = none;
  github_review_id = none;
  github_comment_id = none;
  discord_message_id = none;
  discord_thread_id = none;
  merge_sha = none;
  last_error = none;
  retry_at = none;
}

abbrev after_review : ReviewJob × StateStore
after_review = (
  moved 200 waiting_ci no_update (job_in 1 reviewing),
  record empty_store {
    jobs = moved 200 waiting_ci no_update (job_in 1 reviewing) ∷ [];
    contents = (store_with reviewing []).contents;
  },
)

transition-Moves_example : Zip Moves (store_with reviewing []).jobs after_review.1.jobs
unfolding transition validate_transition invalidate_if_job_left_review_context
transition-Moves_example =
    transition-Moves 200 1 waiting_ci (some reviewing) no_update (store_with reviewing [])
      after_review refl (lone-IsConsistent reviewing)
