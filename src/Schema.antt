-- ===== src/Schema.antt =====
-- reviewer/review_schema.py: the check of a review that a model has written. `render`, `strip`,
-- `lower` and `to_int` stand for `str` of a value that is not a text, `str.strip`, `str.lower` and
-- `int`.
pub mod Accepted
use dohwa_hermes_stack.Base.{
  ℕ, ◌+◌, ◌≤◌, ◌≡◌, Bool, true, false, not, ◌&&◌, ◌||◌, Option, none, some, List, [], ◌∷◌, String,
  ltb, ◌==◌, ◌=t◌, any, length, select, ℤ, pos, negsuc, Value, null, object, array, get_field, get,
  codes, is_object, text_length, Result, ok, err, value_error, require, refuse, ◌>>=◌, ◌>>◌,
  if◌then◌else◌,
}
use dohwa_hermes_stack.Approval.Checks.{is_hex}
use dohwa_hermes_stack.Decision.Ci.{text_or_empty, is_list, list_of}

pub data ReviewDecision : Type 0 where
  pass changes_required human_review : ReviewDecision

pub data Severity : Type 0 where
  p0 p1 p2 p3 : Severity

pub record Finding : Type 0 where
  pub severity : Severity
  pub path : String
  pub line : Option ℕ
  pub title : String
  pub evidence : String
  pub recommendation : String

pub record TestResult : Type 0 where
  pub command : String
  pub result : String
  pub detail : String

pub record ReviewResult : Type 0 where
  pub decision : ReviewDecision
  pub reviewed_head_sha : String
  pub summary : String
  pub findings : List Finding
  pub tests : List TestResult
  pub confidence : String

unfoldable pub decision_of : String → Result ReviewDecision
decision_of s =
    if s =t "pass"
    then ok ReviewDecision.pass
    else if s =t "changes_required"
    then ok ReviewDecision.changes_required
    else if s =t "human_review"
    then ok ReviewDecision.human_review
    else err (value_error "not a valid ReviewDecision")

unfoldable pub severity_of : String → Result Severity
severity_of s =
    if s =t "P0"
    then ok p0
    else if s =t "P1"
    then ok p1
    else if s =t "P2"
    then ok p2
    else if s =t "P3"
    then ok p3
    else err (value_error "not a valid Severity")

-- `".." in path.split("/")`: the dots of the segment so far are counted, or it has another character.
abbrev pub dots_after : Option ℕ → ℕ → Option ℕ
dots_after none c = none
dots_after (some n) c = if c == b'.' then some (n + 1) else none

abbrev pub is_two : Option ℕ → Bool
is_two none = false
is_two (some n) = n == 2

abbrev pub climbs : Option ℕ → List ℕ → Bool
climbs dots [] = is_two dots
climbs dots (c ∷ cs) =
    let next = climbs (some 0) cs in
    let on = climbs (dots_after dots c) cs in if c == b'/' then is_two dots || next else on

abbrev pub starts_at_root : List ℕ → Bool
starts_at_root [] = false
starts_at_root (c ∷ cs) = c == b'/'

unfoldable pub is_relative_path : String → Bool
is_relative_path s =
    not (s =t "") && (not (starts_at_root (codes s)) && not (climbs (some 0) (codes s)))

abbrev pub is_confidence : String → Bool
is_confidence s = s =t "high" || (s =t "medium" || s =t "low")

abbrev pub is_test_result : String → Bool
is_test_result s = s =t "passed" || (s =t "failed" || s =t "skipped")

-- A line is none, or an integer from 1.
abbrev pub positive_line : ℤ → Result (Option ℕ)
positive_line (pos n) =
    if n == 0 then err (value_error "finding line must be positive") else ok (some n)
positive_line (negsuc n) = err (value_error "finding line must be positive")

abbrev pub is_blocking : Finding → Bool
is_blocking f = elim f.severity [ p3 ↦ false | _ ↦ true ]

abbrev pub is_human : ReviewDecision → Bool
is_human ReviewDecision.human_review = true
is_human _ = false

abbrev pub is_pass : ReviewDecision → Bool
is_pass ReviewDecision.pass = true
is_pass _ = false

-- Python's `tuple(f(item) for item in items)`.
unfoldable pub each_item {ℓ} : {A : Type ℓ} → (Value → Result A) → List Value → Result (List A)
each_item f [] = ok []
each_item f (v ∷ vs) = do a ← f v; rest ← each_item f vs; ok (a ∷ rest)

module _ (render : Value → String) (strip lower : String → String) (to_int : Value → Result ℤ) where
  unfoldable pub bounded : Value → ℕ → Bool → Result String
  bounded value maximum allow_empty = do
    let text = strip (text_or_empty render value)
    refuse (text =t "" && not allow_empty) (value_error "a text is required")
    refuse (ltb maximum (text_length text)) (value_error "a text exceeds its limit")
    ok text

  unfoldable pub line_of : Value → Result (Option ℕ)
  line_of null = ok none
  line_of v = to_int v >>= positive_line

  unfoldable pub finding : Value → Result Finding
  unfolding get bounded line_of severity_of is_relative_path
  finding value = do
    require (is_object value) (value_error "finding must be an object")
    let path = strip (text_or_empty render (get "path" value))
    require (is_relative_path path) (value_error "finding path must be repository-relative")
    line ← line_of (get "line" value)
    severity ← severity_of (text_or_empty render (get "severity" value))
    title ← bounded (get "title" value) 200 false
    evidence ← bounded (get "evidence" value) 2_000 false
    recommendation ← bounded (get "recommendation" value) 2_000 false
    ok (record {
      severity = severity;
      path = path;
      line = line;
      title = title;
      evidence = evidence;
      recommendation = recommendation;
    })

  unfoldable pub test_result : Value → Result TestResult
  unfolding get bounded
  test_result value = do
    require (is_object value) (value_error "test result must be an object")
    let result = text_or_empty render (get "result" value)
    require (is_test_result result) (value_error "invalid test result")
    command ← bounded (get "command" value) 500 false
    detail ← bounded (get "detail" value) 2_000 true
    ok (record { command = command; result = result; detail = detail })

  -- The last checks, on the result as a whole.
  unfoldable pub check_result : ReviewResult → Result ReviewResult
  check_result r = do
    refuse (r.confidence =t "low" && not (is_human r.decision))
        (value_error "low confidence must result in human_review")
    refuse (any is_blocking r.findings && is_pass r.decision)
        (value_error "pass result cannot contain blocking findings")
    ok r

  unfoldable pub review_result : Value → Result ReviewResult
  unfolding get is_hex decision_of each_item finding test_result bounded check_result
  review_result value = do
    require (is_object value) (value_error "review result must be an object")
    let sha = lower (strip (text_or_empty render (get "reviewed_head_sha" value)))
    require (is_hex 40 sha) (value_error "reviewed_head_sha must be a 40-character lowercase SHA")
    let confidence = lower (text_or_empty render (get "confidence" value))
    require (is_confidence confidence) (value_error "invalid confidence")
    require (is_list (get "findings" value) && is_list (get "tests" value))
        (value_error "findings and tests must be arrays")
    refuse
        (ltb 100 (length (list_of (get "findings" value)))
          || ltb 50 (length (list_of (get "tests" value))))
        (value_error "review result exceeds item limits")
    decision ← decision_of (text_or_empty render (get "decision" value))
    summary ← bounded (get "summary" value) 4_000 false
    findings ← each_item finding (list_of (get "findings" value))
    tests ← each_item test_result (list_of (get "tests" value))
    check_result (record {
      decision = decision;
      reviewed_head_sha = sha;
      summary = summary;
      findings = findings;
      tests = tests;
      confidence = confidence;
    })
