-- ===== src/Approval/Ttl.antt =====
-- reviewer/approval.py: the observation of GitHub's clock and the evaluation of an approval's time
-- to live. Wall times are microseconds from `datetime.min`, monotonic times are nanoseconds.
pub mod Soundness
use dohwa_hermes_stack.Base.{
  ℕ, ◌+◌, ◌-◌, ◌*◌, ◌%◌, ◌≡◌, refl, Bool, true, false, not, ◌&&◌, ◌||◌, Option, none, some, List,
  String, arith, ltb, leb, ◌==◌, all, Result, ok, err, value_error, overflow_error, refuse, require,
  ◌>>=◌, ◌>>◌, if◌then◌else◌, Value, null, str, codes,
}
use dohwa_hermes_stack.Approval.Checks.{nonnegative_int, utc_datetime, ceil_ns_to_microseconds}

abbrev pub approval_ttl : ℕ
approval_ttl = 600_000_000

abbrev pub approval_ttl_safety_margin : ℕ
approval_ttl_safety_margin = 30_000_000

-- The microseconds from `datetime.min` to `datetime.max`: the last of the year 9999.
abbrev pub max_datetime : ℕ
max_datetime = 3_652_059 * 86_400_000_000 - 1

abbrev pub github_date_resolution : ℕ
github_date_resolution = 1_000_000

abbrev pub max_github_request_rtt_ns : ℕ
max_github_request_rtt_ns = 2_000_000_000

pub data ApprovalTtlDecision : Type 0 where
  valid rejected_missing_github_date rejected_request_rtt : ApprovalTtlDecision
  rejected_monotonic_clock expired_or_within_safety_margin : ApprovalTtlDecision

pub record GithubClockObservation : Type 0 where
  pub github_date : Option ℕ
  pub request_started_monotonic_ns : ℕ
  pub response_received_monotonic_ns : ℕ

pub record ApprovalTtlEvaluation : Type 0 where
  pub decision : ApprovalTtlDecision
  pub expires_at : ℕ
  pub server_now_upper : Option ℕ

abbrev pub is_valid : ApprovalTtlDecision → Bool
is_valid valid = true
is_valid _ = false

-- The date of an observation: none, or an aware UTC time of whole seconds.
observed_date : Value → Result (Option ℕ)
observed_date null = ok none
observed_date v = do
  t ← utc_datetime v
  require (t % 1_000_000 == 0) (value_error "github_date must have HTTP Date second precision")
  ok (some t)

-- The constructor of `GithubClockObservation`, with its checks.
unfoldable pub clock_observation : Value → Value → Value → Result GithubClockObservation
unfolding observed_date
clock_observation github_date started received = do
  d ← observed_date github_date
  s ← nonnegative_int started
  r ← nonnegative_int received
  ok (record {
    github_date = d;
    request_started_monotonic_ns = s;
    response_received_monotonic_ns = r;
  })

-- `parse` stands for the standard library's `parsedate_to_datetime`: none where it raises.
parse_header : (String → Option Value) → Value → Result Value
parse_header parse null = ok null
parse_header parse (str s) =
    if all (λ c. ltb c 128) (codes s)
    then (elim (parse s) [
      | none ↦ err (value_error "invalid GitHub Date header")
      | some v ↦ utc_datetime v >>= λ _. ok v
    ])
    else err (value_error "GitHub Date header must be ASCII")
parse_header parse _ = err (value_error "GitHub Date header must be ASCII")

unfoldable pub github_clock_observation :
    (String → Option Value) → Value → Value → Value → Result GithubClockObservation
unfolding parse_header
github_clock_observation parse date_header started received = do
  d ← parse_header parse date_header
  clock_observation d started received

-- `received - started < 0`, without negative numbers.
abbrev pub rtt_is_negative : GithubClockObservation → Bool
rtt_is_negative c = ltb c.response_received_monotonic_ns c.request_started_monotonic_ns

abbrev pub request_rtt_ns : GithubClockObservation → ℕ
request_rtt_ns c = c.response_received_monotonic_ns - c.request_started_monotonic_ns

-- The latest that GitHub's clock can show now.
unfoldable pub server_now_upper_bound : ℕ → GithubClockObservation → ℕ → ℕ
unfolding ceil_ns_to_microseconds
server_now_upper_bound date c now =
    date
    + github_date_resolution
    + ceil_ns_to_microseconds (request_rtt_ns c)
    + ceil_ns_to_microseconds (now - c.response_received_monotonic_ns)

-- The evaluation after its arguments are checked.
ttl_decision : ℕ → GithubClockObservation → ℕ → Option ℕ → ApprovalTtlEvaluation
ttl_decision expires c now none = record {
  decision = rejected_missing_github_date;
  expires_at = expires;
  server_now_upper = none;
}
ttl_decision expires c now (some date) =
    if rtt_is_negative c || ltb now c.response_received_monotonic_ns
    then record {
      decision = rejected_monotonic_clock;
      expires_at = expires;
      server_now_upper = none;
    }
    else if ltb max_github_request_rtt_ns (request_rtt_ns c)
    then record { decision = rejected_request_rtt; expires_at = expires; server_now_upper = none }
    else record {
      decision =
          if leb (expires - approval_ttl_safety_margin) (server_now_upper_bound date c now)
          then expired_or_within_safety_margin
          else valid;
      expires_at = expires;
      server_now_upper = some (server_now_upper_bound date c now);
    }

-- The sums for the latest time of GitHub's clock are beyond `datetime.max`, where they are computed:
-- Python raises `OverflowError` there.
unfoldable pub ttl_overflows : GithubClockObservation → ℕ → Option ℕ → Bool
ttl_overflows c now none = false
ttl_overflows c now (some date) =
    not (rtt_is_negative c || ltb now c.response_received_monotonic_ns)
    && not (ltb max_github_request_rtt_ns (request_rtt_ns c))
    && ltb max_datetime (server_now_upper_bound date c now)

unfoldable pub evaluate_approval_ttl :
    Value → GithubClockObservation → Value → Result ApprovalTtlEvaluation
unfolding ttl_decision ttl_overflows utc_datetime nonnegative_int
evaluate_approval_ttl event_created_at c now_monotonic_ns = do
  created ← utc_datetime event_created_at
  now ← nonnegative_int now_monotonic_ns
  refuse (ltb max_datetime (created + approval_ttl)) overflow_error
  refuse (ttl_overflows c now c.github_date) overflow_error
  ok (ttl_decision (created + approval_ttl) c now c.github_date)
