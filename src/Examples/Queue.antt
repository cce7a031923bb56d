-- ===== src/Examples/Queue.antt =====
-- Two lanes of the reconciliation queue.
use dohwa_hermes_stack.Base.{
  ℕ, ◌+◌, ◌≤◌, ◌≡◌, refl, arith, true, false, none, some, List, [], ◌∷◌, All, ok, find_row, is_none,
  not, any,
}
use dohwa_hermes_stack.Store.Tables.{StateStore, empty_store}
use dohwa_hermes_stack.Store.Tables.Signed.{ReconciliationRow, SignedLabel}
use dohwa_hermes_stack.Store.Reconciliations.{
  is_expired, is_time_to_retry, is_same_lane, is_ahead, is_ready, is_reconciliation,
  claimed_reconciliation, claim_reconciliation_row, claim_next_approval_reconciliation,
  retry_approval_reconciliation,
}
use dohwa_hermes_stack.Store.Reconciliations.Lanes.{
  HasQueueKeys, IsFirst, after_reconciliation_claim, claim_next_approval_reconciliation-some,
  claim_next_approval_reconciliation-is_same_lane, retry_approval_reconciliation_bounded,
}

abbrev unsigned : SignedLabel
unsigned = record {
  payload_sha256 = none;
  repository = none;
  installation_id = none;
  action = none;
  label_id = none;
  label_node_id = none;
  label_name = none;
  sender_type = none;
  sender_github_user_id = none;
  sender_node_id = none;
  sender_login = none;
  signed_base_sha = none;
  signed_head_sha = none;
  pull_updated_at = none;
}

abbrev queue_row : ℕ → ℕ → ReconciliationRow
queue_row id pull = record {
  id = id;
  delivery_id = "d";
  event_name = "pull_request";
  signed = unsigned;
  is_draft = none;
  is_merged = none;
  merge_sha = none;
  expected_policy_version = "1";
  repository_id = 7;
  pull_number = pull;
  received_at = 100;
  deadline_at = 5_000_000;
  claimed_at = none;
  lease_expires_at = none;
  attempt_count = 0;
  retry_at = some 100;
  completed_at = none;
  last_error = none;
}

abbrev queue_of : List ReconciliationRow → StateStore
queue_of rows = record empty_store { reconciliations = rows }

-- The second row waits behind the first; the third is another pull request's.
abbrev waiting : StateStore
waiting = queue_of (queue_row 1 12 ∷ queue_row 2 12 ∷ queue_row 3 13 ∷ [])

abbrev one_taken : StateStore
one_taken =
    queue_of (claimed_reconciliation 200 (queue_row 1 12) ∷ queue_row 2 12 ∷ queue_row 3 13 ∷ [])

abbrev two_taken : StateStore
two_taken = queue_of (
    claimed_reconciliation 200 (queue_row 1 12)
    ∷ queue_row 2 12
    ∷ claimed_reconciliation 300 (queue_row 3 13)
    ∷ [])

waiting-HasQueueKeys : HasQueueKeys waiting
waiting-HasQueueKeys = ((omega arith, (omega arith, tt)), ((omega arith, tt), (tt, tt)))

first_taken :
    claim_next_approval_reconciliation 200 waiting
    ≡ (some (claimed_reconciliation 200 (queue_row 1 12)), one_taken)
unfolding claim_next_approval_reconciliation claim_reconciliation_row is_ready
first_taken = refl

claim_next_approval_reconciliation-some_example :
    (row : ReconciliationRow) × (find_row (is_reconciliation row.id) waiting.reconciliations
      ≡ some row)
    × (claimed_reconciliation 200 (queue_row 1 12) ≡ claimed_reconciliation 200 row)
    × (one_taken ≡ after_reconciliation_claim 200 row waiting)
    × (is_none row.completed_at ≡ true)
    × (is_time_to_retry row.retry_at 200 ≡ true)
    × (is_expired row.lease_expires_at 200 ≡ true)
    × All (IsFirst row) waiting.reconciliations
claim_next_approval_reconciliation-some_example =
    claim_next_approval_reconciliation-some 200 waiting one_taken
      (claimed_reconciliation 200 (queue_row 1 12)) waiting-HasQueueKeys first_taken

claim_next_approval_reconciliation-is_same_lane_example :
    is_same_lane
      (claimed_reconciliation 300 (queue_row 3 13))
      (claimed_reconciliation 200 (queue_row 1 12))
    ≡ false
unfolding claim_next_approval_reconciliation claim_reconciliation_row is_ready
claim_next_approval_reconciliation-is_same_lane_example =
    claim_next_approval_reconciliation-is_same_lane 200 300 waiting one_taken two_taken
      (claimed_reconciliation 200 (queue_row 1 12)) (claimed_reconciliation 300 (queue_row 3 13))
      waiting-HasQueueKeys first_taken refl (omega arith)

retry_approval_reconciliation_bounded_example :
    (t : StateStore) × (p : ReconciliationRow) × (time : ℕ) × (retry_approval_reconciliation 300 1
        "timeout" 200 1 one_taken
      ≡ ok t)
    × (find_row (is_reconciliation 1) t.reconciliations ≡ some p)
    × (p.completed_at ≡ none)
    × (p.claimed_at ≡ none)
    × (p.lease_expires_at ≡ none)
    × (p.attempt_count ≡ 1)
    × (p.retry_at ≡ some time)
    × (time ≤ 5_000_000)
    × (time ≤ 300 + 30_000_000)
    × (is_ready 30_000_300 t.reconciliations p ≡ not (any (is_ahead p) t.reconciliations))
unfolding find_row
retry_approval_reconciliation_bounded_example =
    retry_approval_reconciliation_bounded 300 1 200 1 30_000_300 "timeout" one_taken
      (claimed_reconciliation 200 (queue_row 1 12))
      ((omega arith, (omega arith, tt)), ((omega arith, tt), (tt, tt))) refl refl refl (omega arith)
