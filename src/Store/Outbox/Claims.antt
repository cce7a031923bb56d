-- ===== src/Store/Outbox/Claims.antt =====
-- The claims of the outbox: order, leases and ownership.
use dohwa_hermes_stack.Base.{
  ℕ, ◌+◌, ◌≤◌, ◌<◌, ◌≡◌, refl, sym, ap, subst, ◌∙◌, ◌≢◌, true, false, ◌&&◌, Option, none, some,
  List, [], ◌∷◌, String, arith, eq_iff, is_none, any, All, All-imp, Apart-update, UniqueKeys,
  find_row, find_row-key, find_row-update_at, first_row, first_row_passes, first_row-none,
  first_row-least, count_rows, count_rows_unique, update_rows, ok, err, runtime_error, Option-cases,
  inl, inr,
}
use dohwa_hermes_stack.Store.Tables.{StateStore, OutboxRow}
use dohwa_hermes_stack.Store.Jobs.{is_due}
use dohwa_hermes_stack.Store.Outbox.{
  outbox_lease, is_lease_over, is_prior, is_deliverable, outbox_before, is_outbox, is_free_outbox,
  claimed_outbox, claim_outbox_row, claim_next_approval_outbox, owns_outbox, is_owned_outbox,
  write_owned, delivered_outbox, complete_approval_outbox, retry_approval_outbox,
}

-- `id` is the primary key of the outbox.
abbrev pub HasOutboxKeys : StateStore → Type 0
HasOutboxKeys s = UniqueKeys (λ (r : OutboxRow). r.id) s.outbox

-- No earlier row that is not delivered belongs to the same delivery.
abbrev pub IsNext : OutboxRow → OutboxRow → Type 0
IsNext r q = q.id < r.id → q.delivery_id ≡ r.delivery_id → is_none q.delivered_at ≡ false

no_prior :
    (r : OutboxRow) (rows : List OutboxRow) → any (is_prior r) rows ≡ false → All (IsNext r) rows
unfolding is_prior
no_prior r [] h = tt
no_prior r (q ∷ qs) h =
    (λ l same. ground (arith, eq_iff q.delivery_id r.delivery_id), no_prior r qs (ground arith))

-- What a claim of the row leaves.
abbrev pub after_claim : ℕ → OutboxRow → StateStore → StateStore
after_claim now row s = record s {
  outbox = update_rows (is_free_outbox row.id now) (claimed_outbox now) s.outbox;
}

claim_outbox_row_once :
    (now : ℕ) (s : StateStore) (row : OutboxRow)
    → count_rows (is_free_outbox row.id now) s.outbox ≡ 1
    → find_row (is_outbox row.id) s.outbox ≡ some row
    → is_free_outbox row.id now row ≡ true
    → claim_outbox_row now s (some row) ≡ (some (claimed_outbox now row), after_claim now row s)
unfolding claim_outbox_row
claim_outbox_row_once now s row h found p =
    rw
      (
        h,
        find_row-update_at (is_outbox row.id) (is_free_outbox row.id now) (claimed_outbox now)
            (λ x e. ground arith) (λ x e. e) s.outbox row found p,
      )
      refl

module _ (now : ℕ) (s : StateStore) (keys : HasOutboxKeys s) where
  abbrev first_deliverable : Option OutboxRow
  first_deliverable = first_row outbox_before (is_deliverable now s.outbox) s.outbox

  claim_selected :
      (row : OutboxRow)
      → first_row outbox_before (is_deliverable now s.outbox) s.outbox ≡ some row
      → claim_next_approval_outbox now s ≡ (some (claimed_outbox now row), after_claim now row s)
  unfolding claim_next_approval_outbox is_deliverable
  claim_selected row e =
      let passes = first_row_passes outbox_before (is_deliverable now s.outbox) s.outbox row e in
      let found =
        find_row-key (λ r. r.id) outbox_before (is_deliverable now s.outbox) s.outbox row keys e in
      ap (claim_outbox_row now s) e
      ∙ claim_outbox_row_once now s row
          (count_rows_unique (λ r. r.id)
            (λ r. is_none r.delivered_at && is_lease_over r.claimed_at now) row.id s.outbox keys
            found (ground arith))
          found (ground arith)

-- Where the outbox has unique keys, a claim takes the first row that may be delivered: undelivered,
-- due, with no lease running, and every earlier row of its delivery delivered; it gives the row a
-- new time and number and changes nothing else.
pub claim_next_approval_outbox-some :
    (now : ℕ) (s t : StateStore) (r : OutboxRow)
    → HasOutboxKeys s
    → claim_next_approval_outbox now s ≡ (some r, t)
    → (row : OutboxRow) × (find_row (is_outbox row.id) s.outbox ≡ some row)
      × (r ≡ claimed_outbox now row)
      × (t ≡ after_claim now row s)
      × (is_none row.delivered_at ≡ true)
      × (is_due row.retry_at now ≡ true)
      × (is_lease_over row.claimed_at now ≡ true)
      × All (IsNext row) s.outbox
      × All (λ k. is_deliverable now s.outbox k ≡ true → row.id ≤ k.id) s.outbox
unfolding claim_next_approval_outbox is_deliverable
claim_next_approval_outbox-some now s t r keys h =
    elim (Option-cases (first_row outbox_before (is_deliverable now s.outbox) s.outbox)) [
      | inl e ↦ absurd (unfold claim_outbox_row in cc)
      | inr (row, e) ↦
          let got = sym (claim_selected now s keys row e) ∙ h in
          let passes =
            first_row_passes outbox_before (is_deliverable now s.outbox) s.outbox row e in
          (
            row,
            find_row-key (λ r. r.id) outbox_before (is_deliverable now s.outbox) s.outbox row keys
                e,
            ground arith,
            ground arith,
            ground arith,
            ground arith,
            ground arith,
            no_prior row s.outbox (ground arith),
            All-imp _ _ (λ k least d. ground (arith, least d)) s.outbox
                (first_row-least outbox_before (is_deliverable now s.outbox) (λ x. ground arith)
                  (λ x y q. ground arith) (λ x y z q w. ground arith) s.outbox row e),
          )
    ]

-- A claim that returns nothing changes nothing, and then no row may be delivered.
pub claim_next_approval_outbox-none :
    (now : ℕ) (s : StateStore)
    → HasOutboxKeys s
    → (claim_next_approval_outbox now s).0 ≡ none
    → ((claim_next_approval_outbox now s).1 ≡ s)
      × All (λ r. is_deliverable now s.outbox r ≡ false) s.outbox
unfolding claim_next_approval_outbox claim_outbox_row
claim_next_approval_outbox-none now s keys h =
    elim (Option-cases (first_row outbox_before (is_deliverable now s.outbox) s.outbox)) [
      | inl e ↦ (rw e refl, first_row-none outbox_before (is_deliverable now s.outbox) s.outbox e)
      | inr (row, e) ↦
          absurd
            (cc (ap (λ (x : Option OutboxRow × StateStore). x.0) (claim_selected now s keys row e)))
    ]

-- The claims keep the key.
after_claim-HasOutboxKeys :
    (now : ℕ) (row : OutboxRow) (s : StateStore)
    → HasOutboxKeys s
    → HasOutboxKeys (after_claim now row s)
after_claim-HasOutboxKeys now row s keys =
    Apart-update (λ x y. x.id ≢ y.id) (is_free_outbox row.id now) (claimed_outbox now)
      (λ x y ne. ground (arith, ne)) s.outbox keys

-- Where the outbox has unique keys, a claim within the five minutes of the claim before it returns
-- another row.
pub claim_next_approval_outbox-outbox_lease :
    (now later : ℕ) (s t u : StateStore) (r q : OutboxRow)
    → HasOutboxKeys s
    → claim_next_approval_outbox now s ≡ (some r, t)
    → claim_next_approval_outbox later t ≡ (some q, u)
    → later < now + outbox_lease
    → q.id ≢ r.id
claim_next_approval_outbox-outbox_lease now later s t u r q keys h g early same =
    let (row, found, r_is, t_is, open1, due1, over1, prior1, least1) =
      claim_next_approval_outbox-some now s t r keys h in
    let keys2 = subst HasOutboxKeys (sym t_is) (after_claim-HasOutboxKeys now row s keys) in
    let (row2, found2, q_is, u_is, open2, due2, over2, prior2, least2) =
      claim_next_approval_outbox-some later t u q keys2 g in
    let again =
      find_row-update_at (is_outbox row.id) (is_free_outbox row.id now) (claimed_outbox now)
        (λ x e. ground arith) (λ x e. e) s.outbox row found (ground arith) in
    let ids : row2.id ≡ row.id = ground arith in
    let held : find_row (is_outbox row.id) t.outbox ≡ some (claimed_outbox now row) =
      rw t_is again in
    let found3 : find_row (is_outbox row.id) t.outbox ≡ some row2 =
      subst (λ i. find_row (is_outbox i) t.outbox ≡ some row2) ids found2 in
    let one : row2 ≡ claimed_outbox now row = ground arith in
    let late : is_lease_over (some now) later ≡ true =
      subst (λ (x : OutboxRow). is_lease_over x.claimed_at later ≡ true) one over2 in
    ground arith

-- Where the outbox has unique keys, the holder of a claim can complete it at any time before
-- another write; the row is then delivered, and any later completion or retry of it changes
-- nothing. A token of another number is refused before.
pub claim_next_approval_outbox-complete_approval_outbox :
    (now later : ℕ) (s t : StateStore) (r : OutboxRow)
    → HasOutboxKeys s
    → claim_next_approval_outbox now s ≡ (some r, t)
    → ((claimed_at attempt_count : ℕ)
        → attempt_count ≢ r.attempt_count
        → complete_approval_outbox later r.id claimed_at attempt_count t
          ≡ err (runtime_error "approval outbox claim ownership changed"))
      × ((u : StateStore) × (complete_approval_outbox later r.id now r.attempt_count t ≡ ok u)
          × (find_row (is_outbox r.id) u.outbox ≡ some (delivered_outbox later r))
          × ((after claimed_at attempt_count : ℕ) (error : String)
              → (complete_approval_outbox after r.id claimed_at attempt_count u ≡ ok u)
                × (retry_approval_outbox after r.id error claimed_at attempt_count u ≡ ok u)))
unfolding complete_approval_outbox retry_approval_outbox write_owned
claim_next_approval_outbox-complete_approval_outbox now later s t r keys h =
    let (row, found, r_is, t_is, free, due, over, prior, least) =
      claim_next_approval_outbox-some now s t r keys h in
    let keys2 = subst HasOutboxKeys (sym t_is) (after_claim-HasOutboxKeys now row s keys) in
    let held : find_row (is_outbox r.id) t.outbox ≡ some r =
      rw (t_is, r_is)
        (find_row-update_at (is_outbox row.id) (is_free_outbox row.id now) (claimed_outbox now)
          (λ x e. ground arith) (λ x e. e) s.outbox row found (ground arith)) in
    let owned : is_none r.delivered_at && owns_outbox now r.attempt_count r ≡ true = ground arith in
    let once =
      count_rows_unique (λ r. r.id)
        (λ q. is_none q.delivered_at && owns_outbox now r.attempt_count q) r.id t.outbox keys2 held
        owned in
    let done =
      find_row-update_at (is_outbox r.id) (is_owned_outbox r.id now r.attempt_count)
        (delivered_outbox later) (λ x e. ground arith) (λ x e. e) t.outbox r held (ground arith) in
    (
      λ c n ne. rw held (ground (arith, ne)),
      (
        record t {
          outbox =
              update_rows (is_owned_outbox r.id now r.attempt_count) (delivered_outbox later)
                t.outbox;
        },
        rw (held, once) (ground arith),
        done,
        λ after c n error. (rw done refl, rw done refl),
      ),
    )
