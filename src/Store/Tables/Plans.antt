-- ===== src/Store/Tables/Plans.antt =====
-- reviewer/state.py: the tables `merge_descriptors` and `ci_requests`, whose rows are never updated
-- or deleted.
use dohwa_hermes_stack.Base.{ℕ, List, String, Option}
use dohwa_hermes_stack.Models.{CiRequestState}

pub record MergeDescriptorRow : Type 0 where
  pub id : ℕ
  pub job_id : ℕ
  pub repository_id : ℕ
  pub pull_number : ℕ
  pub object_format : String
  pub base_oid : String
  pub head_oid : String
  pub merge_base_oid : String
  pub tree_oid : String
  pub candidate_oid : String
  pub workflow_sha : String
  pub ci_profile : String
  pub git_profile : String
  pub policy_version : String
  pub canonical_bytes : List ℕ
  pub descriptor_digest : String
  pub created_at : ℕ

-- What the methods return of a row.
pub record StoredMergeDescriptor : Type 0 where
  pub id : ℕ
  pub job_id : ℕ
  pub descriptor_digest : String
  pub canonical_bytes : List ℕ
  pub created_at : ℕ

abbrev pub stored_descriptor_from_row : MergeDescriptorRow → StoredMergeDescriptor
stored_descriptor_from_row row = record {
  id = row.id;
  job_id = row.job_id;
  descriptor_digest = row.descriptor_digest;
  canonical_bytes = row.canonical_bytes;
  created_at = row.created_at;
}

-- A row of `ci_requests`, which is the plan that the methods return.
pub record CiRequestPlan : Type 0 where
  pub request_id : String
  pub review_context_id : String
  pub descriptor_id : ℕ
  pub workflow_id : ℕ
  pub workflow_path : String
  pub workflow_sha : String
  pub workflow_definition_sha256 : String
  pub ci_profile : String
  pub expected_actor : String
  pub expected_installation_id : ℕ
  pub dispatch_not_before : String
  pub canonical_inputs : List ℕ
  pub inputs_digest : String
  pub state : CiRequestState
  pub blocked_reason : Option String
  pub created_at : ℕ
