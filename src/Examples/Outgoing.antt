-- ===== src/Examples/Outgoing.antt =====
-- A publication that is begun and confirmed, and two rows of the outbox.
use dohwa_hermes_stack.Base.{
  ℕ, ◌≤◌, ◌≡◌, refl, ◌≢◌, arith, Bool, true, false, some, [], ◌∷◌, String, All, ok, err,
  runtime_error, int, pos, find_row, is_none, ◌==◌, if◌then◌else◌,
}
use dohwa_hermes_stack.Models.{reviewing}
use dohwa_hermes_stack.Store.Tables.{ReviewPublication, StateStore, OutboxRow, confirmed}
use dohwa_hermes_stack.Store.Jobs.{is_due}
use dohwa_hermes_stack.Store.Attempts.{positive_id}
use dohwa_hermes_stack.Store.Attempts.Prepare.{has_unresolved_review_publication}
use dohwa_hermes_stack.Store.Publications.{
  has_marker, new_publication, confirming, begin_review_publication, begin_for, begin_row,
  insert_publication, confirm_review_publication, confirm_row,
}
use dohwa_hermes_stack.Store.Publications.Once.{
  begin_review_publication_once, confirm_review_publication_bound,
}
use dohwa_hermes_stack.Store.Outbox.{
  is_lease_over, is_outbox, is_deliverable, claimed_outbox, claim_outbox_row,
  claim_next_approval_outbox, delivered_outbox, complete_approval_outbox, retry_approval_outbox,
}
use dohwa_hermes_stack.Store.Outbox.Claims.{
  HasOutboxKeys, IsNext, after_claim, claim_next_approval_outbox-some,
  claim_next_approval_outbox-none, claim_next_approval_outbox-outbox_lease,
  claim_next_approval_outbox-complete_approval_outbox,
}
use dohwa_hermes_stack.Examples.Data.{job_in, store_with, outbox_row, outbox_store}

abbrev idle : StateStore
idle = store_with reviewing []

abbrev begun : StateStore
begun = record idle { publications = new_publication 200 1 "m1" "COMMENT" ∷ [] }

begin_review_publication_once_example :
    (has_unresolved_review_publication 7 12 begun ≡ true)
    × ((b : Bool) (u : StateStore)
        → begin_review_publication 300 1 "m2" "REQUEST_CHANGES" begun ≡ ok (b, u)
        → (b ≡ false) × (u ≡ begun))
unfolding begin_review_publication begin_for begin_row insert_publication
begin_review_publication_once_example =
    begin_review_publication_once 200 300 1 1 7 "m1" "COMMENT" "m2" "REQUEST_CHANGES" idle begun
      (job_in 1 reviewing) (job_in 1 reviewing) refl refl refl refl refl refl

abbrev settled : StateStore
settled = record idle {
  publications = confirming 300 77 (new_publication 200 1 "m1" "COMMENT") ∷ [];
}

confirm_review_publication_bound_example :
    (review : ℕ) × (positive_id (int (pos 77)) ≡ ok review)
    × ((p : ReviewPublication) × (find_row (has_marker "m1") settled.publications ≡ some p)
        × (p.publish_state ≡ confirmed)
        × (p.github_review_id ≡ some review))
    × ((other : ℕ)
        → positive_id (int (pos 78)) ≡ ok other
        → confirm_review_publication 400 1 "m1" "COMMENT" (int (pos 78)) settled ≡ (
            if other == review
            then ok settled
            else err (runtime_error "review publication is bound to another review")))
unfolding confirm_review_publication confirm_row
confirm_review_publication_bound_example =
    confirm_review_publication_bound 300 400 1 "m1" "COMMENT" (int (pos 77)) (int (pos 78)) begun
      settled (refl, tt) refl

outbox_store-HasOutboxKeys : HasOutboxKeys outbox_store
outbox_store-HasOutboxKeys = ((omega arith, tt), (tt, tt))

abbrev first_claimed : OutboxRow
first_claimed = claimed_outbox 1_000 (outbox_row 1 "d1")

abbrev claimed_store : StateStore
claimed_store = record outbox_store { outbox = first_claimed ∷ outbox_row 2 "d2" ∷ [] }

first_claim : claim_next_approval_outbox 1_000 outbox_store ≡ (some first_claimed, claimed_store)
unfolding claim_next_approval_outbox claim_outbox_row is_deliverable
first_claim = refl

claim_next_approval_outbox-some_example :
    (row : OutboxRow) × (find_row (is_outbox row.id) outbox_store.outbox ≡ some row)
    × (first_claimed ≡ claimed_outbox 1_000 row)
    × (claimed_store ≡ after_claim 1_000 row outbox_store)
    × (is_none row.delivered_at ≡ true)
    × (is_due row.retry_at 1_000 ≡ true)
    × (is_lease_over row.claimed_at 1_000 ≡ true)
    × All (IsNext row) outbox_store.outbox
    × All
        (λ k. is_deliverable 1_000 outbox_store.outbox k ≡ true → row.id ≤ k.id)
        outbox_store.outbox
claim_next_approval_outbox-some_example =
    claim_next_approval_outbox-some 1_000 outbox_store claimed_store first_claimed
      outbox_store-HasOutboxKeys first_claim

-- The second row waits for the first, which is claimed.
claim_next_approval_outbox-none_example :
    ((claim_next_approval_outbox 1_100 claimed_store).1 ≡ claimed_store)
    × All (λ r. is_deliverable 1_100 claimed_store.outbox r ≡ false) claimed_store.outbox
unfolding claim_next_approval_outbox claim_outbox_row is_deliverable
claim_next_approval_outbox-none_example =
    claim_next_approval_outbox-none 1_100 claimed_store ((omega arith, tt), (tt, tt)) refl

abbrev other_row : OutboxRow
other_row = record (outbox_row 2 "d2") { pull_number = 13 }

abbrev two_pulls : StateStore
two_pulls = record outbox_store { outbox = outbox_row 1 "d1" ∷ other_row ∷ [] }

abbrev one_claimed : StateStore
one_claimed = record outbox_store { outbox = first_claimed ∷ other_row ∷ [] }

abbrev both_claimed : StateStore
both_claimed = record outbox_store { outbox = first_claimed ∷ claimed_outbox 1_100 other_row ∷ [] }

claim_next_approval_outbox-outbox_lease_example : (claimed_outbox 1_100 other_row).id ≢ 1
unfolding claim_next_approval_outbox claim_outbox_row is_deliverable
claim_next_approval_outbox-outbox_lease_example =
    claim_next_approval_outbox-outbox_lease 1_000 1_100 two_pulls one_claimed both_claimed
      first_claimed (claimed_outbox 1_100 other_row) ((omega arith, tt), (tt, tt)) refl refl
      (omega arith)

claim_next_approval_outbox-complete_approval_outbox_example :
    ((claimed_at attempt_count : ℕ)
      → attempt_count ≢ 1
      → complete_approval_outbox 1_050 1 claimed_at attempt_count claimed_store
        ≡ err (runtime_error "approval outbox claim ownership changed"))
    × ((u : StateStore) × (complete_approval_outbox 1_050 1 1_000 1 claimed_store ≡ ok u)
        × (find_row (is_outbox 1) u.outbox ≡ some (delivered_outbox 1_050 first_claimed))
        × ((after claimed_at attempt_count : ℕ) (error : String)
            → (complete_approval_outbox after 1 claimed_at attempt_count u ≡ ok u)
              × (retry_approval_outbox after 1 error claimed_at attempt_count u ≡ ok u)))
claim_next_approval_outbox-complete_approval_outbox_example =
    claim_next_approval_outbox-complete_approval_outbox 1_000 1_050 outbox_store claimed_store
      first_claimed outbox_store-HasOutboxKeys first_claim
