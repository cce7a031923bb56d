-- ===== src/Merge/Inputs/Checked.antt =====
-- What the checks of the inputs of a run accept, they accept again.
use dohwa_hermes_stack.Base.{
  ◌≡◌, refl, subst, String, arith, Option, pos, Value, int, str, ok, >>=-eq-ok,
}
use dohwa_hermes_stack.Merge.Checks.{
  require_sha, require_sha256, require_positive_int, require_text, require_workflow_path,
  require_safe_identifier, require_github_actor, require_utc_seconds, require_request_id,
}
use dohwa_hermes_stack.Merge.RoundTrip.{sha_again, positive_int_again, text_again}
use dohwa_hermes_stack.Merge.Inputs.{
  InputAttributes, CiRequestInputs, Context, Subject, Workflow, Sender, require_context,
  require_subject, require_workflow, require_sender,
}

-- What a check returns passes it again.
sha256_again : (v : Value) {s : String} → require_sha256 v ≡ ok s → require_sha256 (str s) ≡ ok s
unfolding require_sha256
sha256_again v h = ground arith

request_id_again :
    (v : Value) {s : String} → require_request_id v ≡ ok s → require_request_id (str s) ≡ ok s
unfolding require_request_id
request_id_again v h = ground arith

workflow_path_again :
    (v : Value) {s : String} → require_workflow_path v ≡ ok s → require_workflow_path (str s) ≡ ok s
unfolding require_workflow_path
workflow_path_again v h = ground arith

safe_identifier_again :
    (v : Value) {s : String}
    → require_safe_identifier v ≡ ok s
    → require_safe_identifier (str s) ≡ ok s
unfolding require_safe_identifier
safe_identifier_again v h = ground arith

github_actor_again :
    (v : Value) {s : String} → require_github_actor v ≡ ok s → require_github_actor (str s) ≡ ok s
unfolding require_github_actor
github_actor_again v h = ground arith

module _ (reformat : String → Option String) where
  utc_seconds_again :
      (v : Value) {s : String}
      → require_utc_seconds reformat v ≡ ok s
      → require_utc_seconds reformat (str s) ≡ ok s
  unfolding require_utc_seconds
  utc_seconds_again v h = ground arith

-- What the checked fields of each group satisfy.
abbrev pub IsContext : Context → Type 0
IsContext g =
    (require_request_id (str g.request_id) ≡ ok g.request_id)
    × (require_safe_identifier (str g.review_context_id) ≡ ok g.review_context_id)
    × (require_positive_int (int (pos g.repository_id)) ≡ ok g.repository_id)
    × (require_positive_int (int (pos g.pull_number)) ≡ ok g.pull_number)
    × (require_sha256 (str g.descriptor_digest) ≡ ok g.descriptor_digest)

abbrev pub IsSubject : Subject → Type 0
IsSubject g =
    (require_sha (str g.base_oid) ≡ ok g.base_oid)
    × (require_sha (str g.head_oid) ≡ ok g.head_oid)
    × (require_sha (str g.candidate_oid) ≡ ok g.candidate_oid)
    × (require_sha (str g.workflow_sha) ≡ ok g.workflow_sha)

abbrev pub IsWorkflow : Workflow → Type 0
IsWorkflow g =
    (require_positive_int (int (pos g.workflow_id)) ≡ ok g.workflow_id)
    × (require_workflow_path (str g.workflow_path) ≡ ok g.workflow_path)
    × (require_sha256 (str g.workflow_definition_sha256) ≡ ok g.workflow_definition_sha256)
    × (require_text (str g.ci_profile) ≡ ok g.ci_profile)
    × (require_text (str g.sandbox_profile) ≡ ok g.sandbox_profile)

abbrev pub IsSender : (String → Option String) → Sender → Type 0
IsSender reformat g =
    (require_github_actor (str g.expected_actor) ≡ ok g.expected_actor)
    × (require_positive_int (int (pos g.expected_installation_id)) ≡ ok g.expected_installation_id)
    × (require_utc_seconds reformat (str g.dispatch_not_before) ≡ ok g.dispatch_not_before)

pub require_context-IsContext :
    (a : InputAttributes) {g : Context} → require_context a ≡ ok g → IsContext g
unfolding require_context
require_context-IsContext a {g} h =
    let (x0, e0, h0) = >>=-eq-ok (require_request_id a.request_id) _ h in
    let (x1, e1, h1) = >>=-eq-ok (require_safe_identifier a.review_context_id) _ h0 in
    let (x2, e2, h2) = >>=-eq-ok (require_positive_int a.repository_id) _ h1 in
    let (x3, e3, h3) = >>=-eq-ok (require_positive_int a.pull_number) _ h2 in
    let (x4, e4, h4) = >>=-eq-ok (require_sha256 a.descriptor_digest) _ h3 in
    let same : (record {
      request_id = x0;
      review_context_id = x1;
      repository_id = x2;
      pull_number = x3;
      descriptor_digest = x4;
    })
        ≡ g =
      ground arith in
    subst IsContext same (
      request_id_again a.request_id e0,
      safe_identifier_again a.review_context_id e1,
      positive_int_again a.repository_id e2,
      positive_int_again a.pull_number e3,
      sha256_again a.descriptor_digest e4,
    )

pub require_subject-IsSubject :
    (a : InputAttributes) {g : Subject} → require_subject a ≡ ok g → IsSubject g
unfolding require_subject
require_subject-IsSubject a {g} h =
    let (x0, e0, h0) = >>=-eq-ok (require_sha a.base_oid) _ h in
    let (x1, e1, h1) = >>=-eq-ok (require_sha a.head_oid) _ h0 in
    let (x2, e2, h2) = >>=-eq-ok (require_sha a.candidate_oid) _ h1 in
    let (x3, e3, h3) = >>=-eq-ok (require_sha a.workflow_sha) _ h2 in
    let same : (record { base_oid = x0; head_oid = x1; candidate_oid = x2; workflow_sha = x3 })
        ≡ g =
      ground arith in
    subst IsSubject same (
      sha_again a.base_oid e0,
      sha_again a.head_oid e1,
      sha_again a.candidate_oid e2,
      sha_again a.workflow_sha e3,
    )

pub require_workflow-IsWorkflow :
    (a : InputAttributes) {g : Workflow} → require_workflow a ≡ ok g → IsWorkflow g
unfolding require_workflow
require_workflow-IsWorkflow a {g} h =
    let (x0, e0, h0) = >>=-eq-ok (require_positive_int a.workflow_id) _ h in
    let (x1, e1, h1) = >>=-eq-ok (require_workflow_path a.workflow_path) _ h0 in
    let (x2, e2, h2) = >>=-eq-ok (require_sha256 a.workflow_definition_sha256) _ h1 in
    let (x3, e3, h3) = >>=-eq-ok (require_text a.ci_profile) _ h2 in
    let (x4, e4, h4) = >>=-eq-ok (require_text a.sandbox_profile) _ h3 in
    let same : (record {
      workflow_id = x0;
      workflow_path = x1;
      workflow_definition_sha256 = x2;
      ci_profile = x3;
      sandbox_profile = x4;
    })
        ≡ g =
      ground arith in
    subst IsWorkflow same (
      positive_int_again a.workflow_id e0,
      workflow_path_again a.workflow_path e1,
      sha256_again a.workflow_definition_sha256 e2,
      text_again a.ci_profile e3,
      text_again a.sandbox_profile e4,
    )

pub require_sender-IsSender :
    (reformat : String → Option String) (a : InputAttributes) {g : Sender}
    → require_sender reformat a ≡ ok g
    → IsSender reformat g
unfolding require_sender
require_sender-IsSender reformat a {g} h =
    let (x0, e0, h0) = >>=-eq-ok (require_github_actor a.expected_actor) _ h in
    let (x1, e1, h1) = >>=-eq-ok (require_positive_int a.expected_installation_id) _ h0 in
    let (x2, e2, h2) = >>=-eq-ok (require_utc_seconds reformat a.dispatch_not_before) _ h1 in
    let same : (record {
      expected_actor = x0;
      expected_installation_id = x1;
      dispatch_not_before = x2;
    })
        ≡ g =
      ground arith in
    subst (IsSender reformat) same (
      github_actor_again a.expected_actor e0,
      positive_int_again a.expected_installation_id e1,
      utc_seconds_again reformat a.dispatch_not_before e2,
    )

-- The attributes of the inputs, as `getattr` reads them.
abbrev pub input_attributes : CiRequestInputs → InputAttributes
input_attributes i = record {
  request_id = str i.request_id;
  review_context_id = str i.review_context_id;
  repository_id = int (pos i.repository_id);
  pull_number = int (pos i.pull_number);
  descriptor_digest = str i.descriptor_digest;
  base_oid = str i.base_oid;
  head_oid = str i.head_oid;
  candidate_oid = str i.candidate_oid;
  workflow_id = int (pos i.workflow_id);
  workflow_path = str i.workflow_path;
  workflow_sha = str i.workflow_sha;
  workflow_definition_sha256 = str i.workflow_definition_sha256;
  ci_profile = str i.ci_profile;
  sandbox_profile = str i.sandbox_profile;
  expected_actor = str i.expected_actor;
  expected_installation_id = int (pos i.expected_installation_id);
  dispatch_not_before = str i.dispatch_not_before;
}

abbrev pub context_of : CiRequestInputs → Context
context_of i = record {
  request_id = i.request_id;
  review_context_id = i.review_context_id;
  repository_id = i.repository_id;
  pull_number = i.pull_number;
  descriptor_digest = i.descriptor_digest;
}

pub context_again :
    (i : CiRequestInputs)
    → IsContext (context_of i)
    → require_context (input_attributes i) ≡ ok (context_of i)
unfolding require_context
context_again i (e0, e1, e2, e3, e4) = rw (e0, e1, e2, e3, e4) refl

abbrev pub subject_of : CiRequestInputs → Subject
subject_of i = record {
  base_oid = i.base_oid;
  head_oid = i.head_oid;
  candidate_oid = i.candidate_oid;
  workflow_sha = i.workflow_sha;
}

pub subject_again :
    (i : CiRequestInputs)
    → IsSubject (subject_of i)
    → require_subject (input_attributes i) ≡ ok (subject_of i)
unfolding require_subject
subject_again i (e0, e1, e2, e3) = rw (e0, e1, e2, e3) refl

abbrev pub workflow_of : CiRequestInputs → Workflow
workflow_of i = record {
  workflow_id = i.workflow_id;
  workflow_path = i.workflow_path;
  workflow_definition_sha256 = i.workflow_definition_sha256;
  ci_profile = i.ci_profile;
  sandbox_profile = i.sandbox_profile;
}

pub workflow_again :
    (i : CiRequestInputs)
    → IsWorkflow (workflow_of i)
    → require_workflow (input_attributes i) ≡ ok (workflow_of i)
unfolding require_workflow
workflow_again i (e0, e1, e2, e3, e4) = rw (e0, e1, e2, e3, e4) refl

abbrev pub dispatch_of : CiRequestInputs → Sender
dispatch_of i = record {
  expected_actor = i.expected_actor;
  expected_installation_id = i.expected_installation_id;
  dispatch_not_before = i.dispatch_not_before;
}

pub dispatch_again :
    (reformat : String → Option String) (i : CiRequestInputs)
    → IsSender reformat (dispatch_of i)
    → require_sender reformat (input_attributes i) ≡ ok (dispatch_of i)
unfolding require_sender
dispatch_again reformat i (e0, e1, e2) = rw (e0, e1, e2) refl
