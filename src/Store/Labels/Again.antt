-- ===== src/Store/Labels/Again.antt =====
-- A delivery is decided once.
use dohwa_hermes_stack.Base.{
  ℕ, ◌≡◌, refl, true, Option, none, String, arith, ==_iff, opt_eq-text, length, ok, Value,
}
use dohwa_hermes_stack.Models.{WebhookEvent}
use dohwa_hermes_stack.Approval.Ttl.{GithubClockObservation}
use dohwa_hermes_stack.Store.Tables.{StateStore}
use dohwa_hermes_stack.Store.Labels.Record.{claim_of, LabelResult, open_claim, complete_claim}
use dohwa_hermes_stack.Store.Labels.Timeline.{Snapshot}
use dohwa_hermes_stack.Store.Labels.Judge.{Settings}
use dohwa_hermes_stack.Store.Labels.Accept.{Runtime}
use dohwa_hermes_stack.Store.Labels.Apply.{
  evidence_result, answer_again, decide, apply_github_label_approval,
}
use dohwa_hermes_stack.Store.Labels.Closed.{Decides, apply_github_label_approval-Decides}

-- The answer is the earlier decision, and the store is as it was.
abbrev pub IsAnswered : LabelResult → LabelResult × StateStore → StateStore → Type 0
IsAnswered first again s =
    (again.1 ≡ s)
    × (again.0.duplicate ≡ true)
    × (again.0.outcome ≡ first.outcome)
    × (again.0.event_id ≡ first.event_id)

module _ (p : Runtime) (lower : String → String) (now : ℕ) (n : Snapshot) (e : WebhookEvent)
    (c : Settings) (clock : GithubClockObservation) (m : Value) (received_at : Option ℕ)
    (fresh : String) where
  decided_again :
      (first : LabelResult) (before s : StateStore)
      → Decides e first before s
      → n.total_count ≡ length n.timeline
      → (again : LabelResult × StateStore) × (apply_github_label_approval p lower now n e c clock m
            received_at none none none fresh s
          ≡ ok again)
        × IsAnswered first again s
  unfolding apply_github_label_approval claim_of open_claim decide answer_again complete_claim
      evidence_result
  decided_again first before s d counted =
      let test = (==_iff n.total_count (length n.timeline)).1 counted in
      let same = (opt_eq-text d.row.signed.payload_sha256 e.payload_sha256).1 d.payload in
      let found = d.is_found in
      ((evidence_result s true d.row, s), ground arith, (refl, refl, d.outcome, d.event_id))

-- A delivery is decided once: after a decision that succeeded, a later decision on the same webhook,
-- without a claim, with whatever timeline, settings, clock and identifier, succeeds if its snapshot
-- counts its events. It is marked as a duplicate, has the outcome and the event of the first
-- decision, and changes nothing in the store.
pub apply_github_label_approval_again :
    (p : Runtime) (lower : String → String) (now later : ℕ) (n x : Snapshot) (e : WebhookEvent)
    (c d : Settings) (clock clock2 : GithubClockObservation) (m m2 : Value)
    (received_at received_later id claimed_at attempt_count : Option ℕ) (fresh fresh2 : String)
    (s : StateStore) (first : LabelResult × StateStore)
    → apply_github_label_approval p lower now n e c clock m received_at id claimed_at attempt_count
        fresh s
      ≡ ok first
    → x.total_count ≡ length x.timeline
    → (again : LabelResult × StateStore) × (apply_github_label_approval p lower later x e d clock2
          m2 received_later none none none fresh2 first.1
        ≡ ok again)
      × IsAnswered first.0 again first.1
apply_github_label_approval_again p lower now later n x e c d clock clock2 m m2 received_at
      received_later id claimed_at attempt_count fresh fresh2 s first h counted =
    decided_again p lower later x e d clock2 m2 received_later fresh2 first.0 s first.1
      (apply_github_label_approval-Decides p lower now n e c clock m received_at id claimed_at
        attempt_count fresh s first h)
      counted
