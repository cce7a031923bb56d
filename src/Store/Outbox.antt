-- ===== src/Store/Outbox.antt =====
-- reviewer/state.py: the outbox of approval actions. A claim is a lease of five minutes, and its
-- time with the number of the claim is the token that a completion or a retry must show. Times are
-- counts of seconds.
pub mod Claims
use dohwa_hermes_stack.Base.{
  ℕ, ◌+◌, ◌^◌, min, ◌≡◌, Bool, true, false, not, ◌&&◌, ◌||◌, Option, none, some, List, [], ◌∷◌,
  String, ◌==◌, ◌=t◌, opt_eq, sql_eq, is_none, leb, ltb, any, find_row, first_row, update_rows,
  count_rows, Result, ok, err, key_error, runtime_error, require, ◌>>=◌, ◌>>◌, if◌then◌else◌,
  take_text,
}
use dohwa_hermes_stack.Store.Tables.{StateStore, OutboxRow}
use dohwa_hermes_stack.Store.Jobs.{is_due}

-- `timedelta(minutes=5)`.
abbrev pub outbox_lease : ℕ
outbox_lease = 300

-- `claimed_at IS NULL OR claimed_at <= lease_before`.
abbrev pub is_lease_over : Option ℕ → ℕ → Bool
is_lease_over none now = true
is_lease_over (some t) now = leb (t + outbox_lease) now

-- An earlier undelivered row that must be delivered first.
unfoldable pub is_prior : OutboxRow → OutboxRow → Bool
is_prior current prior =
    ltb prior.id current.id
    && (is_none prior.delivered_at
        && (prior.delivery_id =t current.delivery_id
            || (current.action =t "REMOVE_LABEL"
                && (prior.action =t "REMOVE_LABEL"
                    && (prior.repository =t current.repository
                        && (prior.pull_number == current.pull_number
                            && sql_eq ◌=t◌ prior.label_name current.label_name))))))

unfoldable pub is_deliverable : ℕ → List OutboxRow → OutboxRow → Bool
unfolding is_prior
is_deliverable now rows r =
    is_none r.delivered_at
    && (is_due r.retry_at now && (is_lease_over r.claimed_at now && not (any (is_prior r) rows)))

abbrev pub outbox_before : OutboxRow → OutboxRow → Bool
outbox_before a b = ltb a.id b.id

abbrev pub is_outbox : ℕ → OutboxRow → Bool
is_outbox i r = r.id == i

abbrev pub is_free_outbox : ℕ → ℕ → OutboxRow → Bool
is_free_outbox i now r = is_outbox i r && (is_none r.delivered_at && is_lease_over r.claimed_at now)

abbrev pub claimed_outbox : ℕ → OutboxRow → OutboxRow
claimed_outbox now r = record r { claimed_at = some now; attempt_count = r.attempt_count + 1 }

unfoldable pub claim_outbox_row : ℕ → StateStore → Option OutboxRow → Option OutboxRow × StateStore
unfolding update_rows count_rows find_row
claim_outbox_row now s none = (none, s)
claim_outbox_row now s (some row) =
    let rows = update_rows (is_free_outbox row.id now) (claimed_outbox now) s.outbox in
    if count_rows (is_free_outbox row.id now) s.outbox == 1
    then (find_row (is_outbox row.id) rows, record s { outbox = rows })
    else (none, s)

unfoldable pub claim_next_approval_outbox : ℕ → StateStore → Option OutboxRow × StateStore
unfolding claim_outbox_row first_row is_deliverable
claim_next_approval_outbox now s =
    claim_outbox_row now s (first_row outbox_before (is_deliverable now s.outbox) s.outbox)

-- The token of a claim: its time and its number.
abbrev pub owns_outbox : ℕ → ℕ → OutboxRow → Bool
owns_outbox claimed_at attempt_count r =
    opt_eq ◌==◌ r.claimed_at (some claimed_at) && r.attempt_count == attempt_count

abbrev pub is_owned_outbox : ℕ → ℕ → ℕ → OutboxRow → Bool
is_owned_outbox i claimed_at attempt_count r =
    is_outbox i r && (is_none r.delivered_at && owns_outbox claimed_at attempt_count r)

-- The write of the owner of a claim, on the row that is found.
unfoldable pub write_owned :
    ℕ → ℕ → ℕ → (OutboxRow → OutboxRow) → String → StateStore → Option OutboxRow → Result StateStore
unfolding update_rows count_rows
write_owned i claimed_at attempt_count f message s none =
    err (key_error "unknown approval outbox row")
write_owned i claimed_at attempt_count f message s (some row) =
    if not (is_none row.delivered_at) then ok s else do
      require (owns_outbox claimed_at attempt_count row)
          (runtime_error "approval outbox claim ownership changed")
      require (count_rows (is_owned_outbox i claimed_at attempt_count) s.outbox == 1)
          (runtime_error message)
      ok (record s { outbox = update_rows (is_owned_outbox i claimed_at attempt_count) f s.outbox })

abbrev pub delivered_outbox : ℕ → OutboxRow → OutboxRow
delivered_outbox now r = record r {
  delivered_at = some now;
  claimed_at = none;
  last_error = none;
  retry_at = none;
}

unfoldable pub complete_approval_outbox : ℕ → ℕ → ℕ → ℕ → StateStore → Result StateStore
unfolding write_owned find_row
complete_approval_outbox now i claimed_at attempt_count s =
    write_owned i claimed_at attempt_count (delivered_outbox now)
      "approval outbox completion CAS failed" s (find_row (is_outbox i) s.outbox)

-- `min(2 ** min(attempts, 8), 300)`.
unfoldable pub outbox_delay : ℕ → ℕ
outbox_delay attempts = min (2 ^ min attempts 8) 300

-- `str(error or default)[:2_000]`.
abbrev pub error_message : String → String → String
error_message default error = take_text 2_000 (if error =t "" then default else error)

-- The delay counts the attempts of the row that is found, which is the row that is written.
abbrev pub postponed_outbox : ℕ → String → OutboxRow → OutboxRow
postponed_outbox now message r = record r {
  claimed_at = none;
  last_error = some message;
  retry_at = some (now + outbox_delay r.attempt_count);
}

unfoldable pub retry_approval_outbox : ℕ → ℕ → String → ℕ → ℕ → StateStore → Result StateStore
unfolding write_owned find_row outbox_delay take_text
retry_approval_outbox now i error claimed_at attempt_count s =
    write_owned i claimed_at attempt_count
      (postponed_outbox now (error_message "approval outbox delivery failed" error))
      "approval outbox retry CAS failed" s (find_row (is_outbox i) s.outbox)
