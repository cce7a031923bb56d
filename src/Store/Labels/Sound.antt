-- ===== src/Store/Labels/Sound.antt =====
-- What stands behind an approval.
use dohwa_hermes_stack.Base.{
  ℕ, ◌≡◌, refl, sym, ap, ◌∙◌, Bool, true, false, not, Option, none, some, List, String, arith, ◌==◌,
  ◌=t◌, =t_iff, opt_eq, opt_eq-text, text_before, find_row, Result, ok, >>=-eq-ok, if◌then◌else◌,
  Bool-cases, Option-cases, inl, inr, Value, int, pos, datetime,
}
use dohwa_hermes_stack.Models.{WebhookEvent, ReviewJob}
use dohwa_hermes_stack.Approval.Status.{ReviewAttemptStatus}
use dohwa_hermes_stack.Approval.Ttl.{
  GithubClockObservation, ApprovalTtlEvaluation, valid, is_valid, evaluate_approval_ttl,
}
use dohwa_hermes_stack.Store.Tables.{StateStore, ReviewAttempt, ReviewContextRow}
use dohwa_hermes_stack.Store.Tables.Signed.{TimelineItem}
use dohwa_hermes_stack.Store.Ingest.{is_job}
use dohwa_hermes_stack.Store.Attempts.Prepare.{is_content}
use dohwa_hermes_stack.Store.Labels.Timeline.{LabelFold, Snapshot}
use dohwa_hermes_stack.Store.Labels.Judge.{
  Settings, event_reason, Approved, Verdict, refused, approves, is_attempt_of, is_signed_context,
  not_after, is_allowed, decision_value, check_monotonic, judge_ttl, judge_time, judge_review,
  judge_attempt, judge,
}

-- The signed commits are those of the reviewed content and of its job.
abbrev pub IsSigned : WebhookEvent → ReviewContextRow → ReviewJob → Type 0
IsSigned e content job =
    (e.base_sha ≡ some content.base_sha)
    × (e.head_sha ≡ some content.head_sha)
    × (e.base_sha ≡ job.base_sha)
    × (e.head_sha ≡ some job.head_sha)

-- What stands behind an approval of the event `i`.
pub record Warrants (instant : String → Result ℕ) (c : Settings) (e : WebhookEvent) (n : Snapshot)
    (clock : GithubClockObservation) (i : TimelineItem) (s : StateStore) (v : Approved)
    : Type 0 where
  pub action : e.action ≡ some "labeled"
  pub actor : i.actor_type ≡ some "User"
  pub label : i.label_name ≡ c.target_label
  pub installation : e.installation_id ≡ some c.expected_installation_id
  pub attempt : find_row (is_attempt_of ReviewAttemptStatus.active n) s.attempts ≡ some v.attempt
  pub attempt_decision : v.attempt.review_decision ≡ "pass"
  pub content : find_row (is_content v.attempt.content_id) s.contents ≡ some v.content
  pub job : find_row (is_job v.attempt.job_id) s.jobs ≡ some v.job
  pub job_decision : v.job.review_decision ≡ some "pass"
  pub signed : IsSigned e v.content v.job
  pub policy : v.content.policy_version ≡ c.expected_policy_version
  pub approver : is_allowed e.sender_id c.allowed_approver_ids ≡ true
  pub late :
      (submitted_at : String) × (v.attempt.submitted_at ≡ some submitted_at)
      × (text_before submitted_at i.created_at ≡ true)
  pub in_time :
      (created : ℕ) × (now : ℕ) × (instant i.created_at ≡ ok created)
      × (evaluate_approval_ttl (datetime true created) clock (int (pos now)) ≡ ok v.ttl)
      × (v.ttl.decision ≡ valid)

-- What is not refused passes the test.
unrefused :
    (b : Bool) (reason : String) (m : Result Verdict) (v : Approved)
    → (if b then ok (refused reason) else m) ≡ ok (approves v)
    → (b ≡ false) × (m ≡ ok (approves v))
unrefused true reason m v h = absurd (cc)
unrefused false reason m v h = (refl, h)

is_signed_context-IsSigned :
    (e : WebhookEvent) (n : Snapshot) (content : ReviewContextRow) (job : ReviewJob)
    → is_signed_context e n content job ≡ true
    → IsSigned e content job
unfolding is_signed_context
is_signed_context-IsSigned e n content job h = (
  sym ((opt_eq-text (some content.base_sha) e.base_sha).0 (ground arith)),
  sym ((opt_eq-text (some content.head_sha) e.head_sha).0 (ground arith)),
  sym ((opt_eq-text job.base_sha e.base_sha).0 (ground arith)),
  sym ((opt_eq-text (some job.head_sha) e.head_sha).0 (ground arith)),
)

-- The first chain of reasons finds none.
pub event_reason-none :
    (c : Settings) (e : WebhookEvent) (timeline : List TimelineItem) (i : TimelineItem)
    (f : LabelFold)
    → event_reason c e timeline i f ≡ none
    → opt_eq ◌=t◌ e.action (some "labeled") ≡ true
    → (opt_eq ◌=t◌ i.actor_type (some "User") ≡ true)
      × ((i.label_name =t c.target_label) ≡ true)
      × (opt_eq ◌==◌ e.installation_id (some c.expected_installation_id) ≡ true)
unfolding event_reason
event_reason-none c e timeline i f h a = ground arith

chosen :
    (b : Bool) (w v : Approved) (reason : String)
    → ◌≡◌ {A = Result Verdict} (ok (if b then approves w else refused reason)) (ok (approves v))
    → (b ≡ true) × (w ≡ v)
chosen true w v reason h = (refl, ground arith)
chosen false w v reason h = absurd (cc)

is_valid-valid : (t : ApprovalTtlEvaluation) → is_valid t.decision ≡ true → t.decision ≡ valid
is_valid-valid t h = ground arith

module _ (instant : String → Result ℕ) (clock : GithubClockObservation) (m : Value)
    (i : TimelineItem) (v : Approved) where
  judge_ttl-approves :
      (attempt : ReviewAttempt) (content : ReviewContextRow) (job : ReviewJob)
      → judge_ttl instant clock m i attempt content job ≡ ok (approves v)
      → (v.attempt ≡ attempt)
        × (v.content ≡ content)
        × (v.job ≡ job)
        × ((created : ℕ) × (now : ℕ) × (instant i.created_at ≡ ok created)
            × (evaluate_approval_ttl (datetime true created) clock (int (pos now)) ≡ ok v.ttl)
            × (v.ttl.decision ≡ valid))
  unfolding judge_ttl
  judge_ttl-approves attempt content job h =
      let (created, p, h1) = >>=-eq-ok (instant i.created_at) _ h in
      let (now, _, h2) = >>=-eq-ok (check_monotonic m) _ h1 in
      let (ttl, q, h3) =
        >>=-eq-ok (evaluate_approval_ttl (datetime true created) clock (int (pos now))) _ h2 in
      let (good, same) =
        chosen (is_valid ttl.decision)
          (record { attempt = attempt; content = content; job = job; ttl = ttl }) v
          (decision_value ttl.decision) h3 in
      let as_is = ap (λ x. x.ttl) same in
      (
        sym (ap (λ x. x.attempt) same),
        sym (ap (λ x. x.content) same),
        sym (ap (λ x. x.job) same),
        (
          created,
          now,
          p,
          q ∙ ap ok as_is,
          ap (λ x. x.decision) (sym as_is) ∙ is_valid-valid ttl good,
        ),
      )

  -- A label that is in time, of an allowed approver, comes after its review.
  record Timely (c : Settings) (e : WebhookEvent) (attempt : ReviewAttempt)
      (content : ReviewContextRow) (job : ReviewJob) : Type 0 where
    same_attempt : v.attempt ≡ attempt
    same_content : v.content ≡ content
    same_job : v.job ≡ job
    approver : is_allowed e.sender_id c.allowed_approver_ids ≡ true
    late :
        (submitted_at : String) × (attempt.submitted_at ≡ some submitted_at)
        × (text_before submitted_at i.created_at ≡ true)
    in_time :
        (created : ℕ) × (now : ℕ) × (instant i.created_at ≡ ok created)
        × (evaluate_approval_ttl (datetime true created) clock (int (pos now)) ≡ ok v.ttl)
        × (v.ttl.decision ≡ valid)

  not_after-late :
      (submitted : Option String)
      → not_after i.created_at submitted ≡ ok false
      → (submitted_at : String) × (submitted ≡ some submitted_at)
        × (text_before submitted_at i.created_at ≡ true)
  not_after-late none h = absurd (cc)
  not_after-late (some t) h = (t, refl, ground arith)

  judge_time-Timely :
      (c : Settings) (e : WebhookEvent) (attempt : ReviewAttempt) (content : ReviewContextRow)
      (job : ReviewJob)
      → judge_time instant c e clock m i attempt content job ≡ ok (approves v)
      → Timely c e attempt content job
  unfolding judge_time
  judge_time-Timely c e attempt content job h =
      let (early, p, h1) = >>=-eq-ok (not_after i.created_at attempt.submitted_at) _ h in
      let (is_late, h2) = unrefused early "LABEL_NOT_AFTER_REVIEW" _ v h1 in
      let (allowed, h3) =
        unrefused (not (is_allowed e.sender_id c.allowed_approver_ids)) "APPROVER_NOT_ALLOWED" _ v
          h2 in
      let (a, b, j, t) = judge_ttl-approves attempt content job h3 in
      record {
        same_attempt = a;
        same_content = b;
        same_job = j;
        approver = ground arith;
        late = not_after-late attempt.submitted_at (p ∙ ap ok is_late);
        in_time = t;
      }

  -- What the review itself says.
  record Reviewed (c : Settings) (e : WebhookEvent) (attempt : ReviewAttempt) (s : StateStore)
      : Type 0 where
    same_attempt : v.attempt ≡ attempt
    content : find_row (is_content attempt.content_id) s.contents ≡ some v.content
    job : find_row (is_job attempt.job_id) s.jobs ≡ some v.job
    job_decision : v.job.review_decision ≡ some "pass"
    signed : IsSigned e v.content v.job
    policy : v.content.policy_version ≡ c.expected_policy_version
    read_content : ReviewContextRow
    read_job : ReviewJob
    timely : Timely c e attempt read_content read_job

  judge_review-Reviewed :
      (c : Settings) (e : WebhookEvent) (n : Snapshot) (attempt : ReviewAttempt) (s : StateStore)
      (x : Option ReviewContextRow) (y : Option ReviewJob)
      → find_row (is_content attempt.content_id) s.contents ≡ x
      → find_row (is_job attempt.job_id) s.jobs ≡ y
      → judge_review instant c e n clock m i attempt x y ≡ ok (approves v)
      → Reviewed c e attempt s
  unfolding judge_review
  judge_review-Reviewed c e n attempt s (some content) (some job) x y h =
      let (passes, h1) =
        unrefused (not (opt_eq ◌=t◌ job.review_decision (some "pass")))
          "REVIEW_JOB_DECISION_NOT_PASS" _ v h in
      let (is_signed, h2) =
        unrefused (not (is_signed_context e n content job)) "SIGNED_REVIEW_CONTEXT_MISMATCH" _ v
          h1 in
      let (same_policy, h3) =
        unrefused (not (content.policy_version =t c.expected_policy_version))
          "POLICY_VERSION_MISMATCH" _ v h2 in
      let t = judge_time-Timely c e attempt content job h3 in
      let signed = is_signed_context-IsSigned e n content job (ground arith) in
      let decided = (opt_eq-text job.review_decision (some "pass")).0 (ground arith) in
      let policy = (=t_iff content.policy_version c.expected_policy_version).0 (ground arith) in
      record {
        same_attempt = t.same_attempt;
        content = x ∙ ap some (sym t.same_content);
        job = y ∙ ap some (sym t.same_job);
        job_decision = ap (λ j. j.review_decision) t.same_job ∙ decided;
        signed = rw (t.same_content, t.same_job) signed;
        policy = ap (λ z. z.policy_version) t.same_content ∙ policy;
        read_content = content;
        read_job = job;
        timely = t;
      }
  judge_review-Reviewed c e n attempt s none (some job) x y h = absurd (cc)
  judge_review-Reviewed c e n attempt s (some content) none x y h = absurd (cc)
  judge_review-Reviewed c e n attempt s none none x y h = absurd (cc)

  attempt-Warrants :
      (c : Settings) (e : WebhookEvent) (n : Snapshot) (s : StateStore)
      → opt_eq ◌=t◌ i.actor_type (some "User") ≡ true
      → (i.label_name =t c.target_label) ≡ true
      → opt_eq ◌==◌ e.installation_id (some c.expected_installation_id) ≡ true
      → opt_eq ◌=t◌ e.action (some "labeled") ≡ true
      → (x : Option ReviewAttempt)
      → find_row (is_attempt_of ReviewAttemptStatus.active n) s.attempts ≡ x
      → judge_attempt instant c e n clock m i s x ≡ ok (approves v)
      → Warrants instant c e n clock i s v
  unfolding judge_attempt
  attempt-Warrants c e n s user label installation labeled none x h = absurd (cc)
  attempt-Warrants c e n s user label installation labeled (some attempt) x h =
      elim (Bool-cases (attempt.review_decision =t "pass")) [
        | inr other ↦ absurd (ground arith)
        | inl passes ↦
            let r =
              judge_review-Reviewed c e n attempt s
                (find_row (is_content attempt.content_id) s.contents)
                (find_row (is_job attempt.job_id) s.jobs) refl refl (ground arith) in
            let a = r.same_attempt in
            record {
              action = (opt_eq-text e.action (some "labeled")).0 labeled;
              actor = (opt_eq-text i.actor_type (some "User")).0 user;
              label = (=t_iff i.label_name c.target_label).0 label;
              installation = ground arith;
              attempt = x ∙ ap some (sym a);
              attempt_decision =
                  ap (λ z. z.review_decision) a ∙ (=t_iff attempt.review_decision "pass").0 passes;
              content = ap (λ z. find_row (is_content z.content_id) s.contents) a ∙ r.content;
              job = ap (λ z. find_row (is_job z.job_id) s.jobs) a ∙ r.job;
              job_decision = r.job_decision;
              signed = r.signed;
              policy = r.policy;
              approver = r.timely.approver;
              late = rw a r.timely.late;
              in_time = r.timely.in_time;
            }
      ]

  -- An event that is judged to approve has all that an approval needs.
  pub judge-Warrants :
      (c : Settings) (e : WebhookEvent) (n : Snapshot) (f : LabelFold) (s : StateStore)
      → judge instant c e n clock m i f s ≡ ok (approves v)
      → Warrants instant c e n clock i s v
  unfolding judge
  judge-Warrants c e n f s h = elim (Option-cases (event_reason c e n.timeline i f)) [
    | inr (reason, e1) ↦ absurd (ground arith)
    | inl e1 ↦ elim (Bool-cases (opt_eq ◌=t◌ e.action (some "labeled"))) [
      | inr other ↦ absurd (ground arith)
      | inl labeled ↦
          let (user, label, installation) = event_reason-none c e n.timeline i f e1 labeled in
          attempt-Warrants c e n s user label installation labeled
            (find_row (is_attempt_of ReviewAttemptStatus.active n) s.attempts) refl (ground arith)
    ]
  ]
