-- ===== src/Examples/Review.antt =====
-- A review that is accepted, with one finding and one test.
use dohwa_hermes_stack.Base.{
  refl, some, [], ◌∷◌, String, ℤ, pos, Value, str, int, array, object, nil, cons, end, field,
  Result, ok, err, value_error,
}
use dohwa_hermes_stack.Schema.{
  ReviewDecision, p3, ReviewResult, decision_of, severity_of, is_relative_path, each_item, bounded,
  line_of, finding, test_result, check_result, review_result,
}
use dohwa_hermes_stack.Schema.Accepted.{IsCoherent, review_result-IsCoherent}

abbrev shown : Value → String
shown v = ""

abbrev plain : String → String
plain s = s

abbrev integer : Value → Result ℤ
integer (int z) = ok z
integer _ = err (value_error "not an integer")

abbrev head : String
head = "0123456789abcdef0123456789abcdef01234567"

abbrev note : Value
note = object (
    field "severity" (str "P3") (
      field "path" (str "docs/..a/b.md") (
        field "line" (int (pos 7)) (
          field "title" (str "typo")
            (field "evidence" (str "teh") (field "recommendation" (str "the") end))))))

abbrev run : Value
run =
    object
      (field "command" (str "pytest") (field "result" (str "passed") (field "detail" (str "") end)))

abbrev output : Value
output = object (
    field "reviewed_head_sha" (str head) (
      field "confidence" (str "high") (
        field "decision" (str "pass") (
          field "summary" (str "fine") (
            field "findings" (array (cons note nil)) (field "tests" (array (cons run nil)) end))))))

abbrev accepted : ReviewResult
accepted = record {
  decision = ReviewDecision.pass;
  reviewed_head_sha = head;
  summary = "fine";
  findings =
      record {
        severity = p3;
        path = "docs/..a/b.md";
        line = some 7;
        title = "typo";
        evidence = "teh";
        recommendation = "the";
      }
      ∷ [];
  tests = record { command = "pytest"; result = "passed"; detail = "" } ∷ [];
  confidence = "high";
}

review_result-IsCoherent_example : IsCoherent shown plain plain integer accepted
unfolding review_result check_result bounded finding test_result each_item line_of severity_of
    decision_of is_relative_path
review_result-IsCoherent_example =
    review_result-IsCoherent shown plain plain integer output accepted refl
