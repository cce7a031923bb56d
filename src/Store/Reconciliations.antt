-- ===== src/Store/Reconciliations.antt =====
-- reviewer/state.py: the queue of approval reconciliations. The rows of one pull request are a lane,
-- in which the earliest row that is not completed goes first. A claim is a lease of two minutes.
-- Times are counts of microseconds.
pub mod Lanes
use dohwa_hermes_stack.Base.{
  ℕ, ◌+◌, ◌*◌, ◌^◌, min, ◌≡◌, Bool, true, false, not, ◌&&◌, ◌||◌, Option, none, some, List, [], ◌∷◌,
  String, ◌==◌, opt_eq, is_none, leb, ltb, any, find_row, first_row, update_rows, count_rows,
  Result, ok, err, key_error, runtime_error, require, ◌>>=◌, ◌>>◌, if◌then◌else◌,
}
use dohwa_hermes_stack.Store.Tables.{StateStore}
use dohwa_hermes_stack.Store.Tables.Signed.{ReconciliationRow}
use dohwa_hermes_stack.Store.Outbox.{error_message}

-- `_APPROVAL_RECONCILIATION_CLAIM_LEASE`.
abbrev pub claim_lease : ℕ
claim_lease = 120_000_000

-- `lease_expires_at IS NULL OR lease_expires_at <= ?`.
abbrev pub is_expired : Option ℕ → ℕ → Bool
is_expired none now = true
is_expired (some t) now = leb t now

-- `retry_at IS NOT NULL AND retry_at <= ?`.
abbrev pub is_time_to_retry : Option ℕ → ℕ → Bool
is_time_to_retry none now = false
is_time_to_retry (some t) now = leb t now

abbrev pub is_same_lane : ReconciliationRow → ReconciliationRow → Bool
is_same_lane a b = a.repository_id == b.repository_id && a.pull_number == b.pull_number

-- An earlier row of the lane that is not completed.
abbrev pub is_ahead : ReconciliationRow → ReconciliationRow → Bool
is_ahead current prior =
    is_same_lane prior current && (ltb prior.id current.id && is_none prior.completed_at)

unfoldable pub is_ready : ℕ → List ReconciliationRow → ReconciliationRow → Bool
is_ready now rows r =
    is_none r.completed_at
    && (is_time_to_retry r.retry_at now
        && (is_expired r.lease_expires_at now && not (any (is_ahead r) rows)))

abbrev pub reconciliation_before : ReconciliationRow → ReconciliationRow → Bool
reconciliation_before a b = ltb a.id b.id

abbrev pub is_reconciliation : ℕ → ReconciliationRow → Bool
is_reconciliation i r = r.id == i

abbrev pub is_free_reconciliation : ℕ → ℕ → ReconciliationRow → Bool
is_free_reconciliation i now r =
    is_reconciliation i r && (is_none r.completed_at && is_expired r.lease_expires_at now)

abbrev pub claimed_reconciliation : ℕ → ReconciliationRow → ReconciliationRow
claimed_reconciliation now r = record r {
  claimed_at = some now;
  lease_expires_at = some (now + claim_lease);
  attempt_count = r.attempt_count + 1;
}

unfoldable pub claim_reconciliation_row :
    ℕ → StateStore → Option ReconciliationRow → Option ReconciliationRow × StateStore
unfolding update_rows count_rows find_row
claim_reconciliation_row now s none = (none, s)
claim_reconciliation_row now s (some row) =
    let rows =
      update_rows (is_free_reconciliation row.id now) (claimed_reconciliation now)
        s.reconciliations in
    if count_rows (is_free_reconciliation row.id now) s.reconciliations == 1
    then (find_row (is_reconciliation row.id) rows, record s { reconciliations = rows })
    else (none, s)

unfoldable pub claim_next_approval_reconciliation :
    ℕ → StateStore → Option ReconciliationRow × StateStore
unfolding claim_reconciliation_row first_row is_ready
claim_next_approval_reconciliation now s =
    claim_reconciliation_row now s
      (first_row reconciliation_before (is_ready now s.reconciliations) s.reconciliations)

-- `_require_approval_reconciliation_claim`.
abbrev pub owns_reconciliation : ℕ → ℕ → ReconciliationRow → Bool
owns_reconciliation claimed_at attempt_count r =
    opt_eq ◌==◌ r.claimed_at (some claimed_at) && r.attempt_count == attempt_count

abbrev pub is_owned_reconciliation : ℕ → ℕ → ℕ → ReconciliationRow → Bool
is_owned_reconciliation i claimed_at attempt_count r =
    is_reconciliation i r
    && (is_none r.completed_at && owns_reconciliation claimed_at attempt_count r)

-- `min(2 ** min(attempts, 5), 30)` seconds.
unfoldable pub reconciliation_delay : ℕ → ℕ
reconciliation_delay attempts = min (2 ^ min attempts 5) 30 * 1_000_000

abbrev pub postponed_reconciliation : ℕ → String → ReconciliationRow → ReconciliationRow
postponed_reconciliation now message r = record r {
  claimed_at = none;
  lease_expires_at = none;
  last_error = some message;
  retry_at = some (min (now + reconciliation_delay r.attempt_count) r.deadline_at);
}

unfoldable pub retry_reconciliation_row :
    ℕ → ℕ → String → ℕ → ℕ → StateStore → Option ReconciliationRow → Result StateStore
unfolding update_rows count_rows reconciliation_delay
retry_reconciliation_row now i error claimed_at attempt_count s none =
    err (key_error "unknown approval reconciliation row")
retry_reconciliation_row now i error claimed_at attempt_count s (some row) =
    if not (is_none row.completed_at) then ok s else do
      require (owns_reconciliation claimed_at attempt_count row)
          (runtime_error "approval reconciliation claim ownership changed")
      require
          (count_rows (is_owned_reconciliation i claimed_at attempt_count) s.reconciliations == 1)
          (runtime_error "approval reconciliation retry CAS failed")
      ok (record s {
        reconciliations =
            update_rows (is_owned_reconciliation i claimed_at attempt_count)
              (postponed_reconciliation now (error_message "approval reconciliation failed" error))
              s.reconciliations;
      })

unfoldable pub retry_approval_reconciliation :
    ℕ → ℕ → String → ℕ → ℕ → StateStore → Result StateStore
unfolding retry_reconciliation_row find_row
retry_approval_reconciliation now i error claimed_at attempt_count s =
    retry_reconciliation_row now i error claimed_at attempt_count s
      (find_row (is_reconciliation i) s.reconciliations)
