-- ===== src/Examples/Histories.antt =====
-- A history of the store: a pull request is opened, its context is stored and an attempt is
-- prepared.
use dohwa_hermes_stack.Base.{
  ℕ, ◌≡◌, refl, true, List, [], ◌∷◌, String, Value, object, Fields, Result, ok, decimal_text,
}
use dohwa_hermes_stack.Approval.Context.{
  ReviewContextContent, payload, context_algorithm, context_id,
}
use dohwa_hermes_stack.Merge.Canonical.{sort_fields}
use dohwa_hermes_stack.Store.Tables.{ReviewContextRow, ReviewAttempt, StateStore, empty_store}
use dohwa_hermes_stack.Store.Contexts.{StoredReviewContext, context_row, store_review_context}
use dohwa_hermes_stack.Store.Consistent.{IsConsistent}
use dohwa_hermes_stack.Store.Ingest.{link_delivery, record_delivery}
use dohwa_hermes_stack.Store.Ingest.Targets.{new_job}
use dohwa_hermes_stack.Store.Attempts.Prepare.{prepare_review_attempt, new_attempt}
use dohwa_hermes_stack.Store.Reach.{
  Reach, start, then_step, ingested, context_stored, attempt_prepared,
}
use dohwa_hermes_stack.Store.Reach.Keeps.{Reach-IsConsistent}
use dohwa_hermes_stack.Examples.Data.{base_sha, head_sha}
use dohwa_hermes_stack.Examples.Deliveries.{opened, after_opened, opened_once}

abbrev hash : List ℕ → String
hash bytes = "0123456789abcdef0123456789abcdef0123456789abcdef0123456789abcdef"

abbrev written : Fields → List ℕ
written f = b'{' ∷ b'}' ∷ []

abbrev value : ReviewContextContent
value = record {
  repository_id = 7;
  pull_number = 12;
  base_sha = base_sha;
  head_sha = head_sha;
  merge_base_sha = base_sha;
  diff_sha256 = hash [];
  policy_version = "v1";
}

abbrev reading : List ℕ → Result Value
reading bytes = ok (object (sort_fields (payload value)))

abbrev row : ReviewContextRow
row = context_row hash written reading value 110

abbrev stored : StoredReviewContext × StateStore
stored = (
  record {
    content_id = hash [];
    algorithm_id = context_algorithm;
    canonical_bytes = written (payload value);
    value = value;
    created_at = 110;
  },
  record after_opened.1 { contents = row ∷ [] },
)

context_is_stored : store_review_context hash written reading value 110 after_opened.1 ≡ ok stored
unfolding store_review_context decimal_text link_delivery record_delivery
context_is_stored = refl

abbrev attempt_id : String
attempt_id = "01890a5d-ac96-774b-bcce-b302099a8057"

abbrev attempt : ReviewAttempt
attempt = new_attempt 120 attempt_id 1 row

abbrev prepared : ReviewAttempt × StateStore
prepared = (attempt, record stored.1 { attempts = attempt ∷ [] })

attempt_is_prepared :
    prepare_review_attempt 120 attempt_id 1 (hash []) "pass" stored.1 ≡ ok prepared
unfolding prepare_review_attempt link_delivery new_job context_id record_delivery
attempt_is_prepared = refl

prepared_reached : Reach (λ at. true) prepared.1
prepared_reached =
    then_step 120 stored.1 prepared.1
      (then_step 110 after_opened.1 stored.1
        (then_step 100 empty_store after_opened.1 start (ingested opened after_opened opened_once))
        (context_stored hash written reading value stored context_is_stored))
      (attempt_prepared attempt_id 1 (hash []) "pass" prepared attempt_is_prepared)

Reach-IsConsistent_example : IsConsistent prepared.1
Reach-IsConsistent_example = Reach-IsConsistent (λ at. true) prepared.1 prepared_reached
