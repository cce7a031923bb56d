-- ===== src/Store/Jobs/Claims.antt =====
-- Which job a claim takes, and what a recovery after a restart returns to the queue.
use dohwa_hermes_stack.Base.{
  ℕ, ◌+◌, ◌≡◌, refl, ap, ◌∙◌, Bool, true, false, Option, none, some, List, [], ◌∷◌, map, arith,
  is_none, All, All-intro, Zip, Zip-update, ◌⊎◌, find_row, find_row-key, first_row,
  first_row_passes, first_row-none, first_row-least, count_rows, count_rows_unique, select,
  update_rows, update_rows_everywhere, Option-cases, inl, inr,
}
use dohwa_hermes_stack.Models.{queued, reviewing, ReviewJob, ◌=s◌}
use dohwa_hermes_stack.Store.Tables.{StateStore}
use dohwa_hermes_stack.Store.Consistent.{IsConsistent}
use dohwa_hermes_stack.Store.Ingest.{is_job}
use dohwa_hermes_stack.Store.Jobs.{
  queued_before, is_claimable, is_queued_job, claimed, claim_row, claim_next, is_reviewing,
  interrupted, holds_outbox, holds_reconciliation, release_outbox, release_reconciliation,
  recover_after_restart,
}

queued_before_irrefl : (a : ReviewJob) → queued_before a a ≡ false
queued_before_irrefl a = ground arith

queued_before_asymm : (a b : ReviewJob) → queued_before a b ≡ true → queued_before b a ≡ false
queued_before_asymm a b h = ground arith

queued_before_negtrans :
    (a b c : ReviewJob)
    → queued_before a b ≡ false
    → queued_before b c ≡ false
    → queued_before a c ≡ false
queued_before_negtrans a b c h k = ground arith

-- The row that is selected is there once, so its update meets one row.
selected_once :
    (now : ℕ) (s : StateStore) (row : ReviewJob)
    → IsConsistent s
    → first_row queued_before (is_claimable now) s.jobs ≡ some row
    → count_rows (is_queued_job row.id) s.jobs ≡ 1
selected_once now s row c e =
    count_rows_unique (λ j. j.id) (λ j. j.state =s queued) row.id s.jobs c.job_keys
      (find_row-key (λ j. j.id) queued_before (is_claimable now) s.jobs row c.job_keys e)
      (let q = first_row_passes queued_before (is_claimable now) s.jobs row e in ground arith)

claim_row-some :
    (now : ℕ) (s : StateStore) (row : ReviewJob)
    → count_rows (is_queued_job row.id) s.jobs ≡ 1
    → claim_row now s (some row) ≡ (
      some (claimed now row),
      record s { jobs = update_rows (is_queued_job row.id) (claimed now) s.jobs },
    )
unfolding claim_row
claim_row-some now s row h = rw h refl

-- On a consistent store, a claim that returns nothing changes nothing, and then no job is queued
-- and due.
pub claim_next-none :
    (now : ℕ) (s : StateStore)
    → IsConsistent s
    → (claim_next now s).0 ≡ none
    → ((claim_next now s).1 ≡ s) × All (λ j. is_claimable now j ≡ false) s.jobs
unfolding claim_next claim_row
claim_next-none now s c h =
    elim (Option-cases (first_row queued_before (is_claimable now) s.jobs)) [
      | inl e ↦ (rw e refl, first_row-none queued_before (is_claimable now) s.jobs e)
      | inr (row, e) ↦
          let found = claim_row-some now s row (selected_once now s row c e) in
          absurd (cc (ap (λ (x : Option ReviewJob × StateStore). x.0) found))
    ]

-- On a consistent store, a claim that returns a job takes the one of the store that has waited
-- longest: it was queued and due, no queued and due job comes before it in the order of queue times
-- and identities, it becomes REVIEWING with one more attempt counted, its identity, head and pull
-- request as they were, and nothing else in the store changes.
pub claim_next-some :
    (now : ℕ) (s : StateStore) (j : ReviewJob)
    → IsConsistent s
    → (claim_next now s).0 ≡ some j
    → (row : ReviewJob) × (find_row (is_job row.id) s.jobs ≡ some row)
      × (is_claimable now row ≡ true)
      × (j ≡ claimed now row)
      × (j.state ≡ reviewing)
      × (j.attempt_count ≡ row.attempt_count + 1)
      × (j.id ≡ row.id)
      × (j.head_sha ≡ row.head_sha)
      × (j.repository ≡ row.repository)
      × (j.pull_number ≡ row.pull_number)
      × All (λ k. is_claimable now k ≡ true → queued_before k row ≡ false) s.jobs
      × ((claim_next now s).1
          ≡ record s { jobs = update_rows (is_queued_job row.id) (claimed now) s.jobs })
unfolding claim_next claimed
claim_next-some now s j c h =
    elim (Option-cases (first_row queued_before (is_claimable now) s.jobs)) [
      | inl e ↦ absurd (unfold claim_row in cc)
      | inr (row, e) ↦
          let found =
            ap (claim_row now s) e ∙ claim_row-some now s row (selected_once now s row c e) in
          let same : j ≡ claimed now row =
            cc (ap (λ (x : Option ReviewJob × StateStore). x.0) found) in
          (
            row,
            find_row-key (λ j. j.id) queued_before (is_claimable now) s.jobs row c.job_keys e,
            first_row_passes queued_before (is_claimable now) s.jobs row e,
            same,
            ap (λ k. k.state) same,
            ap (λ k. k.attempt_count) same,
            ap (λ k. k.id) same,
            ap (λ k. k.head_sha) same,
            ap (λ k. k.repository) same,
            ap (λ k. k.pull_number) same,
            first_row-least queued_before (is_claimable now) queued_before_irrefl
                queued_before_asymm queued_before_negtrans s.jobs row e,
            ap (λ (x : Option ReviewJob × StateStore). x.1) found,
          )
    ]

select_none {ℓ} :
    {A : Type ℓ} (p : A → Bool) (xs : List A) → All (λ x. p x ≡ false) xs → select p xs ≡ []
select_none p [] a = refl
select_none p (x ∷ xs) a = ground (arith, select_none p xs a.1)

-- One job before and after a recovery, which may be claimed at the time `later` if it was in review.
abbrev pub Recovers : ℕ → ReviewJob → ReviewJob → Type 0
Recovers later j k =
    ((is_reviewing j ≡ false) × (k ≡ j))
    ⊎ ((is_reviewing j ≡ true)
        × (k.id ≡ j.id)
        × (k.head_sha ≡ j.head_sha)
        × (k.repository ≡ j.repository)
        × (k.pull_number ≡ j.pull_number)
        × (is_claimable later k ≡ true))

interrupted-Recovers :
    (now later : ℕ) (j : ReviewJob) → is_reviewing j ≡ true → Recovers later j (interrupted now j)
interrupted-Recovers now later j q = inr (q, refl, refl, refl, refl, refl)

-- After a recovery no job is in review, no undelivered outbox row and no uncompleted reconciliation
-- is claimed, every job that was in review is there, with its identity, head and pull request, and
-- can be claimed at once, every other job is unchanged, and a second recovery finds nothing to
-- requeue.
pub recover_after_restart_lem :
    (now later : ℕ) (s : StateStore)
    → let t = (recover_after_restart now s).1 in
      All (λ j. is_reviewing j ≡ false) t.jobs
      × All (λ r. is_none r.delivered_at ≡ true → r.claimed_at ≡ none) t.outbox
      × All (λ r. is_none r.completed_at ≡ true → r.claimed_at ≡ none) t.reconciliations
      × Zip (Recovers later) s.jobs t.jobs
      × ((recover_after_restart later t).0.requeued_job_ids ≡ [])
unfolding recover_after_restart
recover_after_restart_lem now later s =
    let quiet =
      update_rows_everywhere (λ j. is_reviewing j ≡ false) is_reviewing (interrupted now)
        (λ j q. refl) (λ j q. q) s.jobs in
    (
      quiet,
      update_rows_everywhere (λ r. is_none r.delivered_at ≡ true → r.claimed_at ≡ none) holds_outbox
          release_outbox (λ r q e. refl) (λ r q e. ground arith) s.outbox,
      update_rows_everywhere (λ r. is_none r.completed_at ≡ true → r.claimed_at ≡ none)
          holds_reconciliation release_reconciliation (λ r q e. refl) (λ r q e. ground arith)
          s.reconciliations,
      Zip-update (λ _. Unit {0}) (Recovers later) is_reviewing (interrupted now)
          (λ j _ q. interrupted-Recovers now later j q) (λ j q. inl (q, refl)) s.jobs
          (All-intro _ (λ j. tt) s.jobs),
      ap (map (λ (j : ReviewJob). j.id)) (select_none is_reviewing _ quiet),
    )
