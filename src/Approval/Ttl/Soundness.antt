-- ===== src/Approval/Ttl/Soundness.antt =====
-- The evaluation of an approval's time to live is safe against GitHub's own clock.
use dohwa_hermes_stack.Base.{
  ℕ, ◌+◌, ◌-◌, ◌*◌, ◌≤◌, ◌<◌, ◌≡◌, true, false, some, is_some, Option-cases, arith, ok, int, pos,
  datetime,
}
use dohwa_hermes_stack.Approval.Checks.{max_int64}
use dohwa_hermes_stack.Approval.Ttl.{
  GithubClockObservation, ApprovalTtlEvaluation, valid, evaluate_approval_ttl, approval_ttl,
  max_datetime, ttl_overflows, ttl_decision, server_now_upper_bound,
}

-- An approval that is found valid has more than thirty seconds left on GitHub's clock: if GitHub
-- wrote its Date header, which drops the fraction of a second, at some moment between the start of
-- the request and the arrival of the response, then GitHub's clock now, in nanoseconds, plus the
-- thirty seconds is below the end of the ten minutes from the label event. The clocks are taken to
-- run at one rate.
pub evaluate_approval_ttl_sound :
    (created date fraction started written received now : ℕ) (e : ApprovalTtlEvaluation)
    → evaluate_approval_ttl
        (datetime true created)
        (record {
          github_date = some date;
          request_started_monotonic_ns = started;
          response_received_monotonic_ns = received;
        })
        (int (pos now))
      ≡ ok e
    → e.decision ≡ valid
    → fraction < 1_000_000_000
    → started ≤ written
    → written ≤ received
    → date * 1_000 + fraction + (now - written) + 30_000_000_000 < (created + 600_000_000) * 1_000
unfolding evaluate_approval_ttl server_now_upper_bound
evaluate_approval_ttl_sound created date fraction started written received now e h v f s r =
    ground arith

-- The evaluation of checked arguments returns, where neither the end nor the latest time of GitHub's
-- clock, if it is computed, is beyond `datetime.max`: the end is then ten minutes after the event,
-- and a valid one had a date, monotonic times in order and a round trip of at most two seconds.
pub evaluate_approval_ttl_total :
    (created now : ℕ) (c : GithubClockObservation)
    → now ≤ max_int64
    → created + 600_000_000 ≤ max_datetime
    → ttl_overflows c now c.github_date ≡ false
    → (e : ApprovalTtlEvaluation) × (evaluate_approval_ttl (datetime true created) c (int (pos now))
        ≡ ok e)
      × (e.expires_at ≡ created + 600_000_000)
      × (e.decision ≡ valid
          → (is_some c.github_date ≡ true)
            × (c.request_started_monotonic_ns ≤ c.response_received_monotonic_ns)
            × (c.response_received_monotonic_ns ≤ now)
            × (c.response_received_monotonic_ns ≤ c.request_started_monotonic_ns + 2_000_000_000))
unfolding evaluate_approval_ttl ttl_decision
evaluate_approval_ttl_total created now c h f g = (
  ttl_decision (created + approval_ttl) c now c.github_date,
  ground arith,
  ground (arith, Option-cases c.github_date),
  λ v. ground (arith, Option-cases c.github_date),
)

-- What is valid was valid at every earlier moment since the response: time never revives an
-- approval.
pub evaluate_approval_ttl_monotone :
    (created before now : ℕ) (c : GithubClockObservation) (e d : ApprovalTtlEvaluation)
    → evaluate_approval_ttl (datetime true created) c (int (pos before)) ≡ ok d
    → evaluate_approval_ttl (datetime true created) c (int (pos now)) ≡ ok e
    → c.response_received_monotonic_ns ≤ before
    → before ≤ now
    → e.decision ≡ valid
    → d.decision ≡ valid
unfolding evaluate_approval_ttl server_now_upper_bound
evaluate_approval_ttl_monotone created before now c e d g h r b v = ground arith
