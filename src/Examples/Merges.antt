-- ===== src/Examples/Merges.antt =====
-- A merge descriptor and the inputs of a run, written and read.
use dohwa_hermes_stack.Base.{
  if◌then◌else◌, Option, none, ℕ, ◌≡◌, refl, true, some, List, [], ◌∷◌, String, ok, err, Error, ◌⊎◌,
  Result, Value, object, Fields,
}
use dohwa_hermes_stack.Models.{queued, planned}
use dohwa_hermes_stack.Approval.Checks.{is_hex}
use dohwa_hermes_stack.Merge.{MergeDescriptor, from_mapping, to_mapping}
use dohwa_hermes_stack.Merge.Binds.{commit_of_injective}
use dohwa_hermes_stack.Merge.Build.{commit_of, build}
use dohwa_hermes_stack.Merge.Build.Again.{arguments_of, build-from_mapping}
use dohwa_hermes_stack.Merge.Canonical.{
  sort_fields, canonical_json, canonical_bytes, digest, from_canonical_bytes,
}
use dohwa_hermes_stack.Merge.Canonical.RoundTrip.{from_canonical_bytes-canonical_json}
use dohwa_hermes_stack.Merge.Inputs.{
  CiRequestInputs, inputs_from_mapping, inputs_to_mapping, inputs_from_canonical_bytes,
}
use dohwa_hermes_stack.Merge.Inputs.RoundTrip.{inputs_from_canonical_bytes-canonical_json}
use dohwa_hermes_stack.Store.Tables.{StateStore}
use dohwa_hermes_stack.Merge.Checks.{same_codes}
use dohwa_hermes_stack.Merge.Equality.{count_fields}
use dohwa_hermes_stack.Store.Requests.{
  canonical_inputs, inputs_digest, request_row, create_ci_request,
}
use dohwa_hermes_stack.Store.Requests.Once.{create_ci_request_bound}
use dohwa_hermes_stack.Store.Tables.Plans.{
  CiRequestPlan, MergeDescriptorRow, stored_descriptor_from_row,
}
use dohwa_hermes_stack.Store.Descriptors.{
  descriptor_row, get_merge_descriptor, store_merge_descriptor,
}
use dohwa_hermes_stack.Store.Descriptors.Stored.{store_merge_descriptor-get_merge_descriptor}
use dohwa_hermes_stack.Examples.Data.{base_sha, head_sha, store_with}

abbrev object_id : List ℕ → String
object_id payload = "3333333333333333333333333333333333333333"

abbrev hash : List ℕ → String
hash bytes = "0123456789abcdef0123456789abcdef0123456789abcdef0123456789abcdef"

abbrev written : Fields → List ℕ
written f = b'{' ∷ b'}' ∷ []

abbrev descriptor : MergeDescriptor
descriptor = record {
  repository_id = 7;
  pull_number = 12;
  base_oid = base_sha;
  head_oid = head_sha;
  merge_base_oid = base_sha;
  tree_oid = head_sha;
  candidate_oid = "3333333333333333333333333333333333333333";
  message = "Merge\n";
  author_name = "Kim";
  author_email = "kim@dohwa.kr";
  committer_name = "Kim";
  committer_email = "kim@dohwa.kr";
  timestamp = 1_700_000_000;
  ci_profile = "full";
  workflow_sha = base_sha;
  git_profile = "v1";
  policy_version = "v1";
}

abbrev inputs : CiRequestInputs
inputs = record {
  request_id = "0123456789abcdef0123456789abcdef0123456789abcdef0123456789abcdef";
  review_context_id = "ctx:1";
  repository_id = 7;
  pull_number = 12;
  descriptor_digest = "0123456789abcdef0123456789abcdef0123456789abcdef0123456789abcdef";
  base_oid = base_sha;
  head_oid = head_sha;
  candidate_oid = "3333333333333333333333333333333333333333";
  workflow_id = 9;
  workflow_path = ".github/workflows/ci.yml";
  workflow_sha = base_sha;
  workflow_definition_sha256 = "0123456789abcdef0123456789abcdef0123456789abcdef0123456789abcdef";
  ci_profile = "full";
  sandbox_profile = "v1";
  expected_actor = "hermes-app[bot]";
  expected_installation_id = 3;
  dispatch_not_before = "2024-05-01T10:00:00Z";
}

abbrev read_descriptor : List ℕ → Result Value
read_descriptor bytes = ok (object (sort_fields (to_mapping descriptor)))

abbrev read_inputs : List ℕ → Result Value
read_inputs bytes = ok (object (sort_fields (inputs_to_mapping inputs)))

abbrev before : StateStore
before = store_with queued []

abbrev row : MergeDescriptorRow
row = descriptor_row hash written 1 1 descriptor 100

mapping_read : from_mapping object_id (to_mapping descriptor) ≡ ok descriptor
unfolding from_mapping to_mapping
mapping_read = refl

inputs_read : inputs_from_mapping some (inputs_to_mapping inputs) ≡ ok inputs
unfolding inputs_from_mapping inputs_to_mapping
inputs_read = refl

descriptor_stored :
    store_merge_descriptor object_id hash written read_descriptor 1 descriptor 100 before
    ≡ ok (stored_descriptor_from_row row, record before { descriptors = row ∷ [] })
unfolding store_merge_descriptor canonical_bytes digest sort_fields to_mapping
descriptor_stored = refl

build-from_mapping_example : build object_id (arguments_of descriptor) ≡ ok descriptor
build-from_mapping_example =
    build-from_mapping object_id (to_mapping descriptor) descriptor mapping_read

from_canonical_bytes-canonical_json_example :
    from_canonical_bytes object_id written read_descriptor
      (canonical_json written (to_mapping descriptor))
    ≡ ok descriptor
from_canonical_bytes-canonical_json_example =
    from_canonical_bytes-canonical_json object_id written read_descriptor (to_mapping descriptor)
      descriptor mapping_read refl

inputs_from_canonical_bytes-canonical_json_example :
    inputs_from_canonical_bytes some written read_inputs
      (canonical_json written (inputs_to_mapping inputs))
    ≡ ok inputs
inputs_from_canonical_bytes-canonical_json_example =
    inputs_from_canonical_bytes-canonical_json some written read_inputs (inputs_to_mapping inputs)
      inputs inputs_read refl

hash_hex : is_hex 64 (digest hash written descriptor) ≡ true
unfolding digest is_hex
hash_hex = refl

store_merge_descriptor-get_merge_descriptor_example :
    (get_merge_descriptor object_id hash written read_descriptor
        (digest hash written descriptor)
        (record before { descriptors = row ∷ [] })
      ≡ ok (some (stored_descriptor_from_row row)))
    × (store_merge_descriptor object_id hash written read_descriptor 1 descriptor 200
          (record before { descriptors = row ∷ [] })
        ≡ ok (stored_descriptor_from_row row, record before { descriptors = row ∷ [] }))
    × (row.job_id ≡ 1)
    × (row.canonical_bytes ≡ canonical_bytes written descriptor)
store_merge_descriptor-get_merge_descriptor_example =
    store_merge_descriptor-get_merge_descriptor object_id hash written read_descriptor 1 descriptor
      100 200 before (record before { descriptors = row ∷ [] }) (stored_descriptor_from_row row)
      hash_hex descriptor_stored

abbrev other : MergeDescriptor
other = record descriptor { policy_version = "v2"; pull_number = 13 }

other_read : from_mapping object_id (to_mapping other) ≡ ok other
unfolding from_mapping to_mapping
other_read = refl

same_commit : commit_of (arguments_of descriptor) ≡ commit_of (arguments_of other)
unfolding commit_of
same_commit = refl

commit_of_injective_example :
    (descriptor.tree_oid ≡ other.tree_oid)
    × (descriptor.base_oid ≡ other.base_oid)
    × (descriptor.head_oid ≡ other.head_oid)
    × (descriptor.author_name ≡ other.author_name)
    × (descriptor.author_email ≡ other.author_email)
    × (descriptor.committer_name ≡ other.committer_name)
    × (descriptor.committer_email ≡ other.committer_email)
    × (descriptor.timestamp ≡ other.timestamp)
    × (descriptor.message ≡ other.message)
commit_of_injective_example =
    commit_of_injective object_id (to_mapping descriptor) (to_mapping other) descriptor other
      mapping_read other_read same_commit

-- An encoding that tells the two documents apart by their number of fields.
abbrev written_names : Fields → List ℕ
written_names f = count_fields f ∷ []

abbrev read_either : List ℕ → Result Value
read_either bytes =
    if same_codes bytes (canonical_inputs written_names inputs)
    then read_inputs bytes
    else read_descriptor bytes

abbrev named_row : MergeDescriptorRow
named_row = descriptor_row hash written_names 1 1 descriptor 100

abbrev with_named : StateStore
with_named = record before { descriptors = named_row ∷ [] }

abbrev no_reason : Option String
no_reason = none

abbrev plan : CiRequestPlan
plan = request_row hash written_names 1 inputs planned no_reason 150

abbrev with_plan : StateStore
with_plan = record with_named { requests = plan ∷ [] }

plan_created :
    create_ci_request object_id hash some written_names read_either inputs.descriptor_digest inputs
      planned no_reason 150 with_named
    ≡ ok (plan, with_plan)
unfolding create_ci_request canonical_inputs inputs_digest digest
plan_created = refl

-- The same request at another time.
abbrev moved_inputs : CiRequestInputs
moved_inputs = record inputs { dispatch_not_before = "2024-05-01T11:00:00Z" }

create_ci_request_bound_example :
    (create_ci_request object_id hash some written_names read_either inputs.descriptor_digest inputs
        planned no_reason 200 with_plan
      ≡ ok (plan, with_plan))
    × (((raised : Error) × (create_ci_request object_id hash some written_names read_either
              inputs.descriptor_digest moved_inputs planned no_reason 200 with_plan
            ≡ err raised))
        ⊎ ((create_ci_request object_id hash some written_names read_either inputs.descriptor_digest
                moved_inputs planned no_reason 200 with_plan
              ≡ ok (plan, with_plan))
            × (canonical_inputs written_names moved_inputs ≡ canonical_inputs written_names inputs)
            × (planned ≡ planned)
            × (no_reason ≡ no_reason)))
create_ci_request_bound_example =
    create_ci_request_bound object_id hash some written_names read_either inputs.descriptor_digest
      inputs planned no_reason 150 200 with_named with_plan plan inputs.descriptor_digest
      moved_inputs planned no_reason plan_created refl
