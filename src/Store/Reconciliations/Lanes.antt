-- ===== src/Store/Reconciliations/Lanes.antt =====
-- One reconciliation of a pull request at a time, in order, and never after its deadline.
use dohwa_hermes_stack.Base.{
  ℕ, ◌+◌, ◌*◌, ◌^◌, ◌≤◌, ◌<◌, ◌≡◌, refl, sym, ap, subst, ◌∙◌, ◌≢◌, true, false, not, ◌&&◌, none,
  some, List, [], ◌∷◌, String, arith, ◌==◌, is_none, ltb, any, min, All, Apart-update, UniqueKeys,
  find_row, find_row_passes, find_row-All, find_row-key, find_row-update_at, first_row,
  first_row_passes, update_rows-All, count_rows, count_rows_unique, update_rows, ok, Bool-cases,
  Option-cases, inl, inr,
}
use dohwa_hermes_stack.Store.Tables.{StateStore}
use dohwa_hermes_stack.Store.Tables.Signed.{ReconciliationRow}
use dohwa_hermes_stack.Store.Outbox.{error_message}
use dohwa_hermes_stack.Store.Reconciliations.{
  claim_lease, is_expired, is_time_to_retry, is_same_lane, is_ahead, is_ready,
  reconciliation_before, is_reconciliation, is_free_reconciliation, claimed_reconciliation,
  claim_reconciliation_row, claim_next_approval_reconciliation, owns_reconciliation,
  is_owned_reconciliation, reconciliation_delay, postponed_reconciliation, retry_reconciliation_row,
  retry_approval_reconciliation,
}

-- `id` is the primary key of the queue.
abbrev pub HasQueueKeys : StateStore → Type 0
HasQueueKeys s = UniqueKeys (λ (r : ReconciliationRow). r.id) s.reconciliations

-- Every earlier row of the lane is completed.
abbrev pub IsFirst : ReconciliationRow → ReconciliationRow → Type 0
IsFirst r q =
    q.id < r.id
    → q.repository_id ≡ r.repository_id
    → q.pull_number ≡ r.pull_number
    → is_none q.completed_at ≡ false

none_ahead :
    (r : ReconciliationRow) (rows : List ReconciliationRow)
    → any (is_ahead r) rows ≡ false
    → All (IsFirst r) rows
none_ahead r [] h = tt
none_ahead r (q ∷ qs) h = (λ l x y. ground arith, none_ahead r qs (ground arith))

abbrev pub after_reconciliation_claim : ℕ → ReconciliationRow → StateStore → StateStore
after_reconciliation_claim now row s = record s {
  reconciliations =
      update_rows (is_free_reconciliation row.id now) (claimed_reconciliation now)
        s.reconciliations;
}

claim_reconciliation_row_once :
    (now : ℕ) (s : StateStore) (row : ReconciliationRow)
    → count_rows (is_free_reconciliation row.id now) s.reconciliations ≡ 1
    → find_row (is_reconciliation row.id) s.reconciliations ≡ some row
    → is_free_reconciliation row.id now row ≡ true
    → claim_reconciliation_row now s (some row)
      ≡ (some (claimed_reconciliation now row), after_reconciliation_claim now row s)
unfolding claim_reconciliation_row
claim_reconciliation_row_once now s row h found p =
    rw
      (
        h,
        find_row-update_at (is_reconciliation row.id) (is_free_reconciliation row.id now)
            (claimed_reconciliation now) (λ x e. ground arith) (λ x e. e) s.reconciliations row
            found p,
      )
      refl

ready_selected :
    (now : ℕ) (s : StateStore) (row : ReconciliationRow)
    → HasQueueKeys s
    → first_row reconciliation_before (is_ready now s.reconciliations) s.reconciliations ≡ some row
    → claim_next_approval_reconciliation now s
      ≡ (some (claimed_reconciliation now row), after_reconciliation_claim now row s)
unfolding claim_next_approval_reconciliation is_ready
ready_selected now s row keys e =
    let passes =
      first_row_passes reconciliation_before (is_ready now s.reconciliations) s.reconciliations row
        e in
    let found =
      find_row-key (λ r. r.id) reconciliation_before (is_ready now s.reconciliations)
        s.reconciliations row keys e in
    ap (claim_reconciliation_row now s) e
    ∙ claim_reconciliation_row_once now s row
        (count_rows_unique (λ r. r.id)
          (λ r. is_none r.completed_at && is_expired r.lease_expires_at now) row.id
          s.reconciliations keys found (ground arith))
        found (ground arith)

-- Where the queue has unique keys, a claim takes a row that is not completed, whose time has come
-- and whose lease has run out, and every earlier row of its lane is completed. The claim starts a
-- lease of two minutes with a new number, and changes nothing else in the store.
pub claim_next_approval_reconciliation-some :
    (now : ℕ) (s t : StateStore) (r : ReconciliationRow)
    → HasQueueKeys s
    → claim_next_approval_reconciliation now s ≡ (some r, t)
    → (row : ReconciliationRow) × (find_row (is_reconciliation row.id) s.reconciliations ≡ some row)
      × (r ≡ claimed_reconciliation now row)
      × (t ≡ after_reconciliation_claim now row s)
      × (is_none row.completed_at ≡ true)
      × (is_time_to_retry row.retry_at now ≡ true)
      × (is_expired row.lease_expires_at now ≡ true)
      × All (IsFirst row) s.reconciliations
unfolding claim_next_approval_reconciliation is_ready
claim_next_approval_reconciliation-some now s t r keys h =
    elim (Option-cases
      (first_row reconciliation_before (is_ready now s.reconciliations) s.reconciliations)) [
        | inl e ↦ absurd (unfold claim_reconciliation_row in cc)
        | inr (row, e) ↦
            let got = sym (ready_selected now s row keys e) ∙ h in
            let passes =
              first_row_passes reconciliation_before (is_ready now s.reconciliations)
                s.reconciliations row e in
            (
              row,
              find_row-key (λ r. r.id) reconciliation_before (is_ready now s.reconciliations)
                  s.reconciliations row keys e,
              ground arith,
              ground arith,
              ground arith,
              ground arith,
              ground arith,
              none_ahead row s.reconciliations (ground arith),
            )
      ]

after_reconciliation_claim-HasQueueKeys :
    (now : ℕ) (row : ReconciliationRow) (s : StateStore)
    → HasQueueKeys s
    → HasQueueKeys (after_reconciliation_claim now row s)
after_reconciliation_claim-HasQueueKeys now row s keys =
    Apart-update (λ x y. x.id ≢ y.id) (is_free_reconciliation row.id now)
      (claimed_reconciliation now) (λ x y ne. ground (arith, ne)) s.reconciliations keys

-- Of two rows that are not completed and both first of their lanes, the lanes differ.
lanes_apart :
    (a b : ReconciliationRow)
    → IsFirst a b
    → IsFirst b a
    → is_none a.completed_at ≡ true
    → is_none b.completed_at ≡ true
    → (b.id == a.id) ≡ false
    → is_same_lane b a ≡ false
lanes_apart a b p q x y n = elim (Bool-cases (is_same_lane b a)) [
  | inr e ↦ e
  | inl e ↦
      let repository : b.repository_id ≡ a.repository_id = ground arith in
      let pull : b.pull_number ≡ a.pull_number = ground arith in
      elim (Bool-cases (ltb b.id a.id)) [
        | inl l ↦ absurd (ground (arith, p (ground arith) repository pull))
        | inr l ↦ absurd (ground (arith, q (ground arith) (sym repository) (sym pull)))
      ]
]

-- Where the queue has unique keys, a claim that follows a claim within its two minutes returns a
-- row of another pull request: the reconciliations of a pull request are done one at a time.
pub claim_next_approval_reconciliation-is_same_lane :
    (now later : ℕ) (s t u : StateStore) (r q : ReconciliationRow)
    → HasQueueKeys s
    → claim_next_approval_reconciliation now s ≡ (some r, t)
    → claim_next_approval_reconciliation later t ≡ (some q, u)
    → later < now + claim_lease
    → is_same_lane q r ≡ false
claim_next_approval_reconciliation-is_same_lane now later s t u r q keys h g early =
    let (row, found, r_is, t_is, free, time, over, ahead) =
      claim_next_approval_reconciliation-some now s t r keys h in
    let keys2 =
      subst HasQueueKeys (sym t_is) (after_reconciliation_claim-HasQueueKeys now row s keys) in
    let (row2, found2, q_is, u_is, free2, time2, over2, ahead2) =
      claim_next_approval_reconciliation-some later t u q keys2 g in
    let held : find_row (is_reconciliation row.id) t.reconciliations
        ≡ some (claimed_reconciliation now row) =
      rw t_is (
        find_row-update_at (is_reconciliation row.id) (is_free_reconciliation row.id now)
          (claimed_reconciliation now) (λ x e. ground arith) (λ x e. e) s.reconciliations row found
          (ground arith)) in
    let still : All (IsFirst row) t.reconciliations =
      subst (λ (x : StateStore). All (IsFirst row) x.reconciliations) (sym t_is)
        (update_rows-All (IsFirst row) (IsFirst row) (is_free_reconciliation row.id now)
          (claimed_reconciliation now) (λ x p m. p) (λ x p m. p) s.reconciliations ahead) in
    let second_first : IsFirst row row2 =
      find_row-All (IsFirst row) (is_reconciliation row2.id) t.reconciliations found2 still in
    let first_second : IsFirst row2 (claimed_reconciliation now row) =
      find_row-All (IsFirst row2) (is_reconciliation row.id) t.reconciliations held ahead2 in
    elim (Bool-cases (row2.id == row.id)) [
      | inl same ↦
          let ids : row2.id ≡ row.id = ground arith in
          let one : row2 ≡ claimed_reconciliation now row =
            let there =
              subst (λ i. find_row (is_reconciliation i) t.reconciliations ≡ some row2) ids
                found2 in
            ground arith in
          let late : is_expired (some (now + claim_lease)) later ≡ true =
            subst (λ (x : ReconciliationRow). is_expired x.lease_expires_at later ≡ true) one
              over2 in
          absurd (ground arith)
      | inr other ↦
          rw (q_is, r_is) (lanes_apart row row2 second_first first_second free free2 other)
    ]

-- A postponed row may be claimed thirty seconds later, unless a row of its lane is ahead.
postponed_ready :
    (now later : ℕ) (message : String) (row : ReconciliationRow) (rows : List ReconciliationRow)
    → is_none row.completed_at ≡ true
    → now + 30_000_000 ≤ later
    → is_ready later rows (postponed_reconciliation now message row)
      ≡ not (any (is_ahead (postponed_reconciliation now message row)) rows)
unfolding is_ready reconciliation_delay
postponed_ready now later message row rows free due =
    let time : min (now + min (2 ^ min row.attempt_count 5) 30 * 1_000_000) row.deadline_at
        ≤ later =
      omega (arith, due) in
    ground arith

-- Where the queue has unique keys, the holder of a claim of a row that is not completed can put the
-- row back: it is then not completed and not claimed, its attempts are counted as before, and its
-- next time is at most thirty seconds later and never after its deadline; thirty seconds later it
-- may be claimed exactly if no row of its lane is ahead of it.
pub retry_approval_reconciliation_bounded :
    (now i claimed_at attempt_count later : ℕ) (error : String) (s : StateStore)
    (row : ReconciliationRow)
    → HasQueueKeys s
    → find_row (is_reconciliation i) s.reconciliations ≡ some row
    → is_none row.completed_at ≡ true
    → owns_reconciliation claimed_at attempt_count row ≡ true
    → now + 30_000_000 ≤ later
    → (t : StateStore) × (p : ReconciliationRow) × (time : ℕ) × (retry_approval_reconciliation now i
          error claimed_at attempt_count s
        ≡ ok t)
      × (find_row (is_reconciliation i) t.reconciliations ≡ some p)
      × (p.completed_at ≡ row.completed_at)
      × (p.claimed_at ≡ none)
      × (p.lease_expires_at ≡ none)
      × (p.attempt_count ≡ row.attempt_count)
      × (p.retry_at ≡ some time)
      × (time ≤ row.deadline_at)
      × (time ≤ now + 30_000_000)
      × (is_ready later t.reconciliations p ≡ not (any (is_ahead p) t.reconciliations))
unfolding retry_approval_reconciliation retry_reconciliation_row reconciliation_delay
retry_approval_reconciliation_bounded now i claimed_at attempt_count later error s row keys found
      free own due =
    let once =
      count_rows_unique (λ r. r.id)
        (λ r. is_none r.completed_at && owns_reconciliation claimed_at attempt_count r) i
        s.reconciliations keys found (ground arith) in
    let message = error_message "approval reconciliation failed" error in
    let key = find_row_passes (is_reconciliation i) s.reconciliations found in
    (
      record s {
        reconciliations =
            update_rows (is_owned_reconciliation i claimed_at attempt_count)
              (postponed_reconciliation now message) s.reconciliations;
      },
      postponed_reconciliation now message row,
      min (now + reconciliation_delay row.attempt_count) row.deadline_at,
      rw (found, once) (ground arith),
      find_row-update_at (is_reconciliation i) (is_owned_reconciliation i claimed_at attempt_count)
          (postponed_reconciliation now message) (λ x e. ground arith) (λ x e. e) s.reconciliations
          row found (ground arith),
      refl,
      refl,
      refl,
      refl,
      refl,
      omega arith,
      omega arith,
      postponed_ready now later message row _ free due,
    )
