-- ===== src/Examples/Ttl.antt =====
-- An approval three minutes after its label event.
use dohwa_hermes_stack.Base.{
  ℕ, ◌+◌, ◌*◌, ◌-◌, ◌≤◌, ◌<◌, ◌≡◌, refl, arith, true, some, is_some, ok, int, pos, datetime,
}
use dohwa_hermes_stack.Approval.Checks.{nonnegative_int, utc_datetime, ceil_ns_to_microseconds}
use dohwa_hermes_stack.Approval.Ttl.{
  GithubClockObservation, ApprovalTtlEvaluation, valid, evaluate_approval_ttl,
  server_now_upper_bound, ttl_overflows,
}
use dohwa_hermes_stack.Approval.Ttl.Soundness.{
  evaluate_approval_ttl_sound, evaluate_approval_ttl_total,
}

abbrev observed : GithubClockObservation
observed = record {
  github_date = some 180_000_000;
  request_started_monotonic_ns = 5_000_000_000;
  response_received_monotonic_ns = 5_400_000_000;
}

abbrev evaluation_at : ℕ → ApprovalTtlEvaluation
evaluation_at elapsed = record {
  decision = valid;
  expires_at = 600_000_000;
  server_now_upper = some (181_400_000 + elapsed);
}

evaluate_approval_ttl_sound_example :
    180_000_000 * 1_000 + 999 + (6_400_000_000 - 5_100_000_000) + 30_000_000_000
    < (0 + 600_000_000) * 1_000
unfolding evaluate_approval_ttl server_now_upper_bound ceil_ns_to_microseconds nonnegative_int
    utc_datetime
evaluate_approval_ttl_sound_example =
    evaluate_approval_ttl_sound 0 180_000_000 999 5_000_000_000 5_100_000_000 5_400_000_000
      6_400_000_000 (evaluation_at 1_000_000) refl refl (omega arith) (omega arith) (omega arith)

evaluate_approval_ttl_total_example :
    (e : ApprovalTtlEvaluation) × (evaluate_approval_ttl
        (datetime true 0)
        observed
        (int (pos 6_400_000_000))
      ≡ ok e)
    × (e.expires_at ≡ 0 + 600_000_000)
    × (e.decision ≡ valid
        → (is_some observed.github_date ≡ true)
          × (observed.request_started_monotonic_ns ≤ observed.response_received_monotonic_ns)
          × (observed.response_received_monotonic_ns ≤ 6_400_000_000)
          × (observed.response_received_monotonic_ns
              ≤ observed.request_started_monotonic_ns + 2_000_000_000))
unfolding ttl_overflows server_now_upper_bound
evaluate_approval_ttl_total_example =
    evaluate_approval_ttl_total 0 6_400_000_000 observed (omega arith) (omega arith) refl
