-- ===== src/Merge/Build.antt =====
-- `MergeDescriptor.build` of reviewer/merge_descriptor.py, which computes the object id of the
-- merge commit. `sha1_hex` stands for `hashlib.sha1(...).hexdigest()`.
pub mod Again
use dohwa_hermes_stack.Base.{
  ℕ, ◌≡◌, Bool, true, false, List, String, ℤ, pos, Value, int, str, codes, Result, ok, err,
  value_error, refuse, ◌>>=◌, ◌>>◌, if◌then◌else◌,
}
use dohwa_hermes_stack.Merge.{
  Attributes, MergeDescriptor, require_message, require_oids, require_people, require_profiles,
  post_init,
}
use dohwa_hermes_stack.Merge.Checks.{require_sha, require_identity}
use dohwa_hermes_stack.Merge.Commit.{raw_commit_bytes, git_object_oid, integer_text}

-- The keyword arguments of `build`.
pub record Arguments : Type 0 where
  pub repository_id : ℤ
  pub pull_number : ℤ
  pub base_oid : String
  pub head_oid : String
  pub merge_base_oid : String
  pub tree_oid : String
  pub message : String
  pub author_name : String
  pub author_email : String
  pub committer_name : String
  pub committer_email : String
  pub timestamp : ℤ
  pub ci_profile : String
  pub workflow_sha : String
  pub git_profile : String
  pub policy_version : String

abbrev pub arguments_with : Arguments → String → Attributes
arguments_with k candidate_oid = record {
  repository_id = int k.repository_id;
  pull_number = int k.pull_number;
  base_oid = str k.base_oid;
  head_oid = str k.head_oid;
  merge_base_oid = str k.merge_base_oid;
  tree_oid = str k.tree_oid;
  candidate_oid = str candidate_oid;
  message = str k.message;
  author_name = str k.author_name;
  author_email = str k.author_email;
  committer_name = str k.committer_name;
  committer_email = str k.committer_email;
  timestamp = int k.timestamp;
  ci_profile = str k.ci_profile;
  workflow_sha = str k.workflow_sha;
  git_profile = str k.git_profile;
  policy_version = str k.policy_version;
  object_format = str "sha1";
  timezone = str "+0000";
}

unfoldable pub commit_of : Arguments → List ℕ
unfolding raw_commit_bytes
commit_of k =
    raw_commit_bytes k.tree_oid k.base_oid k.head_oid k.author_name k.author_email k.committer_name
      k.committer_email (integer_text k.timestamp) k.message

unfoldable pub build : (List ℕ → String) → Arguments → Result MergeDescriptor
unfolding require_sha require_identity require_message commit_of git_object_oid post_init
build sha1_hex k = do
  tree ← require_sha (str k.tree_oid)
  base ← require_sha (str k.base_oid)
  head ← require_sha (str k.head_oid)
  author_name ← require_identity (str k.author_name)
  author_email ← require_identity (str k.author_email)
  committer_name ← require_identity (str k.committer_name)
  committer_email ← require_identity (str k.committer_email)
  message ← require_message (str k.message)
  post_init sha1_hex (arguments_with k (git_object_oid sha1_hex (commit_of k)))
