-- ===== src/Merge.antt =====
-- reviewer/merge_descriptor.py: the descriptor of the merge that a review has approved.
-- `sha1_hex` stands for `hashlib.sha1(...).hexdigest()`.
pub mod Checks
pub mod Equality
pub mod Commit
pub mod Build
pub mod Canonical
pub mod RoundTrip
pub mod Inputs
pub mod Binds
use dohwa_hermes_stack.Base.{
  ℕ, ◌≡◌, Bool, true, false, not, ◌&&◌, ◌||◌, List, [], ◌∷◌, String, ◌==◌, ◌=t◌, ℤ, pos, negsuc,
  Value, null, bool, int, str, datetime, array, object, Items, nil, cons, Fields, end, field,
  get_field, codes, is_literal, Result, ok, err, value_error, require, refuse, ◌>>=◌, ◌>>◌,
  decimal_text, if◌then◌else◌,
}
use dohwa_hermes_stack.Merge.Checks.{
  ends_with, has_field, require_exact_fields, require_sha, require_positive_int, require_text,
  require_identity,
}
use dohwa_hermes_stack.Merge.Equality.{same_value}
use dohwa_hermes_stack.Merge.Commit.{raw_commit_bytes, git_object_oid, integer_text}

-- The arguments of the class, before they are checked.
pub record Attributes : Type 0 where
  pub repository_id : Value
  pub pull_number : Value
  pub base_oid : Value
  pub head_oid : Value
  pub merge_base_oid : Value
  pub tree_oid : Value
  pub candidate_oid : Value
  pub message : Value
  pub author_name : Value
  pub author_email : Value
  pub committer_name : Value
  pub committer_email : Value
  pub timestamp : Value
  pub ci_profile : Value
  pub workflow_sha : Value
  pub git_profile : Value
  pub policy_version : Value
  pub object_format : Value
  pub timezone : Value

-- A descriptor. Its object format is `sha1` and its time zone `+0000`.
pub record MergeDescriptor : Type 0 where
  pub repository_id : ℕ
  pub pull_number : ℕ
  pub base_oid : String
  pub head_oid : String
  pub merge_base_oid : String
  pub tree_oid : String
  pub candidate_oid : String
  pub message : String
  pub author_name : String
  pub author_email : String
  pub committer_name : String
  pub committer_email : String
  pub timestamp : ℕ
  pub ci_profile : String
  pub workflow_sha : String
  pub git_profile : String
  pub policy_version : String

abbrev descriptor_schema : String
descriptor_schema = "merge-descriptor/v1"

abbrev pub descriptor_fields : List String
descriptor_fields =
    "schema" ∷ "repository_id" ∷ "pull_number" ∷ "object_format" ∷ "base_oid" ∷ "head_oid"
    ∷ "merge_base_oid" ∷ "tree_oid" ∷ "parents" ∷ "candidate_oid" ∷ "message" ∷ "author_name"
    ∷ "author_email" ∷ "committer_name" ∷ "committer_email" ∷ "timestamp" ∷ "timezone"
    ∷ "ci_profile" ∷ "workflow_sha" ∷ "git_profile" ∷ "policy_version" ∷ []

-- `isinstance(parents, list)` with the two ordered parents.
unfoldable pub are_parents : Value → Value → Value → Bool
unfolding same_value
are_parents base head (array (cons p (cons q nil))) = same_value p base && same_value q head
are_parents base head _ = false

unfoldable pub attributes_of : Fields → Attributes
unfolding get_field
attributes_of value = record {
  repository_id = get_field "repository_id" value;
  pull_number = get_field "pull_number" value;
  base_oid = get_field "base_oid" value;
  head_oid = get_field "head_oid" value;
  merge_base_oid = get_field "merge_base_oid" value;
  tree_oid = get_field "tree_oid" value;
  candidate_oid = get_field "candidate_oid" value;
  message = get_field "message" value;
  author_name = get_field "author_name" value;
  author_email = get_field "author_email" value;
  committer_name = get_field "committer_name" value;
  committer_email = get_field "committer_email" value;
  timestamp = get_field "timestamp" value;
  ci_profile = get_field "ci_profile" value;
  workflow_sha = get_field "workflow_sha" value;
  git_profile = get_field "git_profile" value;
  policy_version = get_field "policy_version" value;
  object_format = get_field "object_format" value;
  timezone = get_field "timezone" value;
}

unfoldable pub require_timestamp : Value → Result ℕ
require_timestamp (int (pos n)) = ok n
require_timestamp _ = err (value_error "timestamp must be a non-negative UTC integer second")

unfoldable pub require_message : Value → Result String
unfolding require_text ends_with
require_message value = do
  message ← require_text value
  (if ends_with (codes "\n") (codes message)
      then ok message
      else err (value_error "message must end with LF"))

-- The groups of fields that the checks of the class go through one after another.
pub record Oids : Type 0 where
  pub base_oid : String
  pub head_oid : String
  pub merge_base_oid : String
  pub tree_oid : String
  pub candidate_oid : String
  pub workflow_sha : String

pub record People : Type 0 where
  pub author_name : String
  pub author_email : String
  pub committer_name : String
  pub committer_email : String

pub record Profiles : Type 0 where
  pub ci_profile : String
  pub git_profile : String
  pub policy_version : String

unfoldable pub require_oids : Attributes → Result Oids
unfolding require_sha
require_oids a = do
  base_oid ← require_sha a.base_oid
  head_oid ← require_sha a.head_oid
  merge_base_oid ← require_sha a.merge_base_oid
  tree_oid ← require_sha a.tree_oid
  candidate_oid ← require_sha a.candidate_oid
  workflow_sha ← require_sha a.workflow_sha
  ok (record {
    base_oid = base_oid;
    head_oid = head_oid;
    merge_base_oid = merge_base_oid;
    tree_oid = tree_oid;
    candidate_oid = candidate_oid;
    workflow_sha = workflow_sha;
  })

unfoldable pub require_people : Attributes → Result People
unfolding require_identity
require_people a = do
  author_name ← require_identity a.author_name
  author_email ← require_identity a.author_email
  committer_name ← require_identity a.committer_name
  committer_email ← require_identity a.committer_email
  ok (record {
    author_name = author_name;
    author_email = author_email;
    committer_name = committer_name;
    committer_email = committer_email;
  })

unfoldable pub require_profiles : Attributes → Result Profiles
unfolding require_text
require_profiles a = do
  ci_profile ← require_text a.ci_profile
  git_profile ← require_text a.git_profile
  policy_version ← require_text a.policy_version
  ok (record {
    ci_profile = ci_profile;
    git_profile = git_profile;
    policy_version = policy_version;
  })

abbrev pub assemble : ℕ → ℕ → Oids → String → People → ℕ → Profiles → MergeDescriptor
assemble repository_id pull_number oids message people timestamp profiles = record {
  repository_id = repository_id;
  pull_number = pull_number;
  base_oid = oids.base_oid;
  head_oid = oids.head_oid;
  merge_base_oid = oids.merge_base_oid;
  tree_oid = oids.tree_oid;
  candidate_oid = oids.candidate_oid;
  message = message;
  author_name = people.author_name;
  author_email = people.author_email;
  committer_name = people.committer_name;
  committer_email = people.committer_email;
  timestamp = timestamp;
  ci_profile = profiles.ci_profile;
  workflow_sha = oids.workflow_sha;
  git_profile = profiles.git_profile;
  policy_version = profiles.policy_version;
}

module _ (sha1_hex : List ℕ → String) where
  unfoldable pub computed_candidate_oid : MergeDescriptor → String
  unfolding git_object_oid raw_commit_bytes
  computed_candidate_oid d = git_object_oid sha1_hex (
      raw_commit_bytes d.tree_oid d.base_oid d.head_oid d.author_name d.author_email
        d.committer_name d.committer_email (decimal_text d.timestamp) d.message)

  unfoldable pub require_candidate : MergeDescriptor → Result MergeDescriptor
  unfolding computed_candidate_oid
  require_candidate d =
      if d.candidate_oid =t computed_candidate_oid d
      then ok d
      else err (value_error "candidate_oid does not match canonical Git commit bytes")

  unfoldable pub post_init : Attributes → Result MergeDescriptor
  unfolding require_positive_int require_oids require_message require_people require_timestamp
      require_profiles require_candidate
  post_init a = do
    repository_id ← require_positive_int a.repository_id
    pull_number ← require_positive_int a.pull_number
    require (is_literal "sha1" a.object_format) (value_error "object_format must be sha1")
    oids ← require_oids a
    refuse (oids.base_oid =t oids.head_oid)
        (value_error "ordered parents must be distinct B0 and H0")
    message ← require_message a.message
    people ← require_people a
    timestamp ← require_timestamp a.timestamp
    require (is_literal "+0000" a.timezone) (value_error "timezone must be +0000")
    profiles ← require_profiles a
    require_candidate (assemble repository_id pull_number oids message people timestamp profiles)

  unfoldable pub from_mapping : Fields → Result MergeDescriptor
  unfolding require_exact_fields get_field are_parents attributes_of post_init
  from_mapping value = do
    require_exact_fields value descriptor_fields
    require (is_literal descriptor_schema (get_field "schema" value))
        (value_error "unsupported merge descriptor schema")
    require
        (are_parents (get_field "base_oid" value) (get_field "head_oid" value)
          (get_field "parents" value))
        (value_error "parents must be ordered [B0, H0]")
    post_init (attributes_of value)

-- The attributes of a descriptor, as `getattr` reads them.
abbrev pub attributes : MergeDescriptor → Attributes
attributes d = record {
  repository_id = int (pos d.repository_id);
  pull_number = int (pos d.pull_number);
  base_oid = str d.base_oid;
  head_oid = str d.head_oid;
  merge_base_oid = str d.merge_base_oid;
  tree_oid = str d.tree_oid;
  candidate_oid = str d.candidate_oid;
  message = str d.message;
  author_name = str d.author_name;
  author_email = str d.author_email;
  committer_name = str d.committer_name;
  committer_email = str d.committer_email;
  timestamp = int (pos d.timestamp);
  ci_profile = str d.ci_profile;
  workflow_sha = str d.workflow_sha;
  git_profile = str d.git_profile;
  policy_version = str d.policy_version;
  object_format = str "sha1";
  timezone = str "+0000";
}

unfoldable pub to_mapping : MergeDescriptor → Fields
to_mapping d = field "schema" (str descriptor_schema) (
    field "repository_id" (int (pos d.repository_id)) (
      field "pull_number" (int (pos d.pull_number)) (
        field "object_format" (str "sha1") (
          field "base_oid" (str d.base_oid) (
            field "head_oid" (str d.head_oid) (
              field "merge_base_oid" (str d.merge_base_oid) (
                field "tree_oid" (str d.tree_oid) (
                  field "parents" (array (cons (str d.base_oid) (cons (str d.head_oid) nil))) (
                    field "candidate_oid" (str d.candidate_oid) (
                      field "message" (str d.message) (
                        field "author_name" (str d.author_name) (
                          field "author_email" (str d.author_email) (
                            field "committer_name" (str d.committer_name) (
                              field "committer_email" (str d.committer_email) (
                                field "timestamp" (int (pos d.timestamp)) (
                                  field "timezone" (str "+0000") (
                                    field "ci_profile" (str d.ci_profile) (
                                      field "workflow_sha" (str d.workflow_sha) (
                                        field "git_profile" (str d.git_profile) (
                                          field "policy_version" (str d.policy_version)
                                            end))))))))))))))))))))
