-- ===== src/Merge/Inputs.antt =====
-- `CIRequestInputs` of reviewer/merge_descriptor.py: what a run of the continuous integration is
-- asked for. `reformat` stands for `strptime` and then `strftime` of a UTC second.
pub mod Checked
pub mod RoundTrip
use dohwa_hermes_stack.Base.{
  ℕ, Bool, true, false, List, [], ◌∷◌, String, ℤ, pos, Value, int, str, Fields, end, field,
  get_field, is_literal, Option, Result, ok, err, value_error, require, ◌>>=◌, ◌>>◌,
}
use dohwa_hermes_stack.Merge.Checks.{
  same_codes, require_exact_fields, require_sha, require_sha256, require_positive_int, require_text,
  require_workflow_path, require_safe_identifier, require_github_actor, require_utc_seconds,
  require_request_id,
}
use dohwa_hermes_stack.Merge.Canonical.{canonical_json, read_mapping}

abbrev input_schema : String
input_schema = "targeted-ci-input/v1"

abbrev pub input_fields : List String
input_fields =
    "schema" ∷ "request_id" ∷ "review_context_id" ∷ "repository_id" ∷ "pull_number"
    ∷ "descriptor_digest" ∷ "base_oid" ∷ "head_oid" ∷ "candidate_oid" ∷ "workflow_id"
    ∷ "workflow_path" ∷ "workflow_sha" ∷ "workflow_definition_sha256" ∷ "ci_profile"
    ∷ "sandbox_profile" ∷ "expected_actor" ∷ "expected_installation_id" ∷ "dispatch_not_before" ∷ []

-- The arguments of the class, before they are checked.
pub record InputAttributes : Type 0 where
  pub request_id : Value
  pub review_context_id : Value
  pub repository_id : Value
  pub pull_number : Value
  pub descriptor_digest : Value
  pub base_oid : Value
  pub head_oid : Value
  pub candidate_oid : Value
  pub workflow_id : Value
  pub workflow_path : Value
  pub workflow_sha : Value
  pub workflow_definition_sha256 : Value
  pub ci_profile : Value
  pub sandbox_profile : Value
  pub expected_actor : Value
  pub expected_installation_id : Value
  pub dispatch_not_before : Value

pub record CiRequestInputs : Type 0 where
  pub request_id : String
  pub review_context_id : String
  pub repository_id : ℕ
  pub pull_number : ℕ
  pub descriptor_digest : String
  pub base_oid : String
  pub head_oid : String
  pub candidate_oid : String
  pub workflow_id : ℕ
  pub workflow_path : String
  pub workflow_sha : String
  pub workflow_definition_sha256 : String
  pub ci_profile : String
  pub sandbox_profile : String
  pub expected_actor : String
  pub expected_installation_id : ℕ
  pub dispatch_not_before : String

-- The groups of fields that the checks of the class go through one after another.
pub record Context : Type 0 where
  pub request_id : String
  pub review_context_id : String
  pub repository_id : ℕ
  pub pull_number : ℕ
  pub descriptor_digest : String

pub record Subject : Type 0 where
  pub base_oid : String
  pub head_oid : String
  pub candidate_oid : String
  pub workflow_sha : String

pub record Workflow : Type 0 where
  pub workflow_id : ℕ
  pub workflow_path : String
  pub workflow_definition_sha256 : String
  pub ci_profile : String
  pub sandbox_profile : String

pub record Sender : Type 0 where
  pub expected_actor : String
  pub expected_installation_id : ℕ
  pub dispatch_not_before : String

unfoldable pub require_context : InputAttributes → Result Context
unfolding require_positive_int require_request_id require_safe_identifier require_sha256
require_context a = do
  request_id ← require_request_id a.request_id
  review_context_id ← require_safe_identifier a.review_context_id
  repository_id ← require_positive_int a.repository_id
  pull_number ← require_positive_int a.pull_number
  descriptor_digest ← require_sha256 a.descriptor_digest
  ok (record {
    request_id = request_id;
    review_context_id = review_context_id;
    repository_id = repository_id;
    pull_number = pull_number;
    descriptor_digest = descriptor_digest;
  })

unfoldable pub require_subject : InputAttributes → Result Subject
unfolding require_sha
require_subject a = do
  base_oid ← require_sha a.base_oid
  head_oid ← require_sha a.head_oid
  candidate_oid ← require_sha a.candidate_oid
  workflow_sha ← require_sha a.workflow_sha
  ok (record {
    base_oid = base_oid;
    head_oid = head_oid;
    candidate_oid = candidate_oid;
    workflow_sha = workflow_sha;
  })

unfoldable pub require_workflow : InputAttributes → Result Workflow
unfolding require_positive_int require_sha256 require_text require_workflow_path
require_workflow a = do
  workflow_id ← require_positive_int a.workflow_id
  workflow_path ← require_workflow_path a.workflow_path
  workflow_definition_sha256 ← require_sha256 a.workflow_definition_sha256
  ci_profile ← require_text a.ci_profile
  sandbox_profile ← require_text a.sandbox_profile
  ok (record {
    workflow_id = workflow_id;
    workflow_path = workflow_path;
    workflow_definition_sha256 = workflow_definition_sha256;
    ci_profile = ci_profile;
    sandbox_profile = sandbox_profile;
  })

unfoldable pub require_sender : (String → Option String) → InputAttributes → Result Sender
unfolding require_github_actor require_positive_int require_utc_seconds
require_sender reformat a = do
  expected_actor ← require_github_actor a.expected_actor
  expected_installation_id ← require_positive_int a.expected_installation_id
  dispatch_not_before ← require_utc_seconds reformat a.dispatch_not_before
  ok (record {
    expected_actor = expected_actor;
    expected_installation_id = expected_installation_id;
    dispatch_not_before = dispatch_not_before;
  })

abbrev pub assemble_inputs : Context → Subject → Workflow → Sender → CiRequestInputs
assemble_inputs context subject workflow sender = record {
  request_id = context.request_id;
  review_context_id = context.review_context_id;
  repository_id = context.repository_id;
  pull_number = context.pull_number;
  descriptor_digest = context.descriptor_digest;
  base_oid = subject.base_oid;
  head_oid = subject.head_oid;
  candidate_oid = subject.candidate_oid;
  workflow_id = workflow.workflow_id;
  workflow_path = workflow.workflow_path;
  workflow_sha = subject.workflow_sha;
  workflow_definition_sha256 = workflow.workflow_definition_sha256;
  ci_profile = workflow.ci_profile;
  sandbox_profile = workflow.sandbox_profile;
  expected_actor = sender.expected_actor;
  expected_installation_id = sender.expected_installation_id;
  dispatch_not_before = sender.dispatch_not_before;
}

unfoldable pub post_init_inputs :
    (String → Option String) → InputAttributes → Result CiRequestInputs
unfolding require_context require_subject require_workflow require_sender
post_init_inputs reformat a = do
  context ← require_context a
  subject ← require_subject a
  workflow ← require_workflow a
  sender ← require_sender reformat a
  ok (assemble_inputs context subject workflow sender)

unfoldable pub input_attributes_of : Fields → InputAttributes
unfolding get_field
input_attributes_of value = record {
  request_id = get_field "request_id" value;
  review_context_id = get_field "review_context_id" value;
  repository_id = get_field "repository_id" value;
  pull_number = get_field "pull_number" value;
  descriptor_digest = get_field "descriptor_digest" value;
  base_oid = get_field "base_oid" value;
  head_oid = get_field "head_oid" value;
  candidate_oid = get_field "candidate_oid" value;
  workflow_id = get_field "workflow_id" value;
  workflow_path = get_field "workflow_path" value;
  workflow_sha = get_field "workflow_sha" value;
  workflow_definition_sha256 = get_field "workflow_definition_sha256" value;
  ci_profile = get_field "ci_profile" value;
  sandbox_profile = get_field "sandbox_profile" value;
  expected_actor = get_field "expected_actor" value;
  expected_installation_id = get_field "expected_installation_id" value;
  dispatch_not_before = get_field "dispatch_not_before" value;
}

unfoldable pub inputs_from_mapping : (String → Option String) → Fields → Result CiRequestInputs
unfolding require_exact_fields get_field input_attributes_of post_init_inputs
inputs_from_mapping reformat value = do
  require_exact_fields value input_fields
  require (is_literal input_schema (get_field "schema" value))
      (value_error "unsupported CI input schema")
  post_init_inputs reformat (input_attributes_of value)

unfoldable pub inputs_to_mapping : CiRequestInputs → Fields
inputs_to_mapping i = field "schema" (str input_schema) (
    field "request_id" (str i.request_id) (
      field "review_context_id" (str i.review_context_id) (
        field "repository_id" (int (pos i.repository_id)) (
          field "pull_number" (int (pos i.pull_number)) (
            field "descriptor_digest" (str i.descriptor_digest) (
              field "base_oid" (str i.base_oid) (
                field "head_oid" (str i.head_oid) (
                  field "candidate_oid" (str i.candidate_oid) (
                    field "workflow_id" (int (pos i.workflow_id)) (
                      field "workflow_path" (str i.workflow_path) (
                        field "workflow_sha" (str i.workflow_sha) (
                          field "workflow_definition_sha256" (str i.workflow_definition_sha256) (
                            field "ci_profile" (str i.ci_profile) (
                              field "sandbox_profile" (str i.sandbox_profile) (
                                field "expected_actor" (str i.expected_actor) (
                                  field "expected_installation_id"
                                    (int (pos i.expected_installation_id))
                                    (field "dispatch_not_before" (str i.dispatch_not_before)
                                      end)))))))))))))))))

module _ (reformat : String → Option String) (dumps : Fields → List ℕ)
    (loads : List ℕ → Result Value) where
  unfoldable pub inputs_from_canonical_bytes : List ℕ → Result CiRequestInputs
  unfolding read_mapping inputs_from_mapping inputs_to_mapping canonical_json
  inputs_from_canonical_bytes value = do
    mapping ← read_mapping loads value
    result ← inputs_from_mapping reformat mapping
    require (same_codes (canonical_json dumps (inputs_to_mapping result)) value)
        (value_error "CI input bytes are not canonical")
    ok result
