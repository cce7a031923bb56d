-- ===== src/Store/Descriptors.antt =====
-- reviewer/state.py: the merge descriptors of review jobs, stored under their digests. `sha1_hex`
-- and `sha256_hex` stand for the hexadecimal digests of hashlib, `dumps` and `loads` for those of
-- json as in Merge/Canonical.antt.
pub mod Stored
use dohwa_hermes_stack.Base.{
  ℕ, suc, ◌+◌, ◌≡◌, Bool, true, false, not, ◌&&◌, ◌||◌, Option, none, some, List, [], ◌∷◌, ◌++◌,
  String, ◌==◌, ◌=t◌, opt_eq, Value, Fields, find_row, max_key, Result, ok, err, value_error,
  runtime_error, key_error, require, refuse, ◌>>=◌, ◌>>◌, if◌then◌else◌,
}
use dohwa_hermes_stack.Approval.Checks.{is_hex}
use dohwa_hermes_stack.Models.{ReviewJob}
use dohwa_hermes_stack.Merge.{MergeDescriptor}
use dohwa_hermes_stack.Merge.Checks.{same_codes}
use dohwa_hermes_stack.Merge.Canonical.{canonical_bytes, digest, from_canonical_bytes}
use dohwa_hermes_stack.Store.Tables.{StateStore}
use dohwa_hermes_stack.Store.Tables.Plans.{
  MergeDescriptorRow, StoredMergeDescriptor, stored_descriptor_from_row,
}
use dohwa_hermes_stack.Store.Ingest.{is_job}

abbrev pub is_digest : String → MergeDescriptorRow → Bool
is_digest digest r = r.descriptor_digest =t digest

unfoldable pub matches_job : MergeDescriptor → ReviewJob → Result (Unit {0})
matches_job d j = do
  require (opt_eq ◌==◌ j.repository_id (some d.repository_id))
      (value_error "descriptor repository_id does not match review job")
  require (j.pull_number == d.pull_number)
      (value_error "descriptor pull_number does not match review job")
  require (opt_eq ◌=t◌ j.base_sha (some d.base_oid))
      (value_error "descriptor base_oid does not match review job")
  require (j.head_sha =t d.head_oid) (value_error "descriptor head_oid does not match review job")

module _ (sha256_hex : List ℕ → String) (dumps : Fields → List ℕ) where
  -- The row that the statement inserts.
  abbrev pub descriptor_row : ℕ → ℕ → MergeDescriptor → ℕ → MergeDescriptorRow
  descriptor_row id job_id d now = record {
    id = id;
    job_id = job_id;
    repository_id = d.repository_id;
    pull_number = d.pull_number;
    object_format = "sha1";
    base_oid = d.base_oid;
    head_oid = d.head_oid;
    merge_base_oid = d.merge_base_oid;
    tree_oid = d.tree_oid;
    candidate_oid = d.candidate_oid;
    workflow_sha = d.workflow_sha;
    ci_profile = d.ci_profile;
    git_profile = d.git_profile;
    policy_version = d.policy_version;
    canonical_bytes = canonical_bytes dumps d;
    descriptor_digest = digest sha256_hex dumps d;
    created_at = now;
  }

  -- `INSERT OR IGNORE` and the row of the digest: a row that is there already must be the one of
  -- this job with these bytes. The other constraints of the table hold of every descriptor.
  unfoldable pub insert_or_find :
      ℕ
      → MergeDescriptor
      → ℕ
      → StateStore
      → Option MergeDescriptorRow
      → Result (MergeDescriptorRow × StateStore)
  unfolding max_key canonical_bytes digest
  insert_or_find job_id d now s none =
      let row =
        descriptor_row (suc (max_key (λ (r : MergeDescriptorRow). r.id) s.descriptors)) job_id d
          now in
      ok (row, record s { descriptors = s.descriptors ++ (row ∷ []) })
  insert_or_find job_id d now s (some row) = do
    require (row.job_id == job_id && same_codes row.canonical_bytes (canonical_bytes dumps d))
        (runtime_error "descriptor digest collision or context mismatch")
    ok (row, s)

  unfoldable pub store_for :
      ℕ
      → MergeDescriptor
      → ℕ
      → StateStore
      → Option ReviewJob
      → Result (MergeDescriptorRow × StateStore)
  unfolding matches_job find_row insert_or_find digest
  store_for job_id d now s none = err (key_error "unknown review job")
  store_for job_id d now s (some j) = do
    matches_job d j
    insert_or_find job_id d now s (find_row (is_digest (digest sha256_hex dumps d)) s.descriptors)

module _ (sha1_hex sha256_hex : List ℕ → String) (dumps : Fields → List ℕ)
    (loads : List ℕ → Result Value) where
  unfoldable pub store_merge_descriptor :
      ℕ → MergeDescriptor → ℕ → StateStore → Result (StoredMergeDescriptor × StateStore)
  unfolding from_canonical_bytes canonical_bytes find_row store_for
  store_merge_descriptor job_id d now s = do
    checked ← from_canonical_bytes sha1_hex dumps loads (canonical_bytes dumps d)
    r ← store_for sha256_hex dumps job_id d now s (find_row (is_job job_id) s.jobs)
    ok (stored_descriptor_from_row r.0, r.1)

  unfoldable pub read_stored : Option MergeDescriptorRow → Result (Option StoredMergeDescriptor)
  unfolding from_canonical_bytes digest
  read_stored none = ok none
  read_stored (some row) = do
    d ← from_canonical_bytes sha1_hex dumps loads row.canonical_bytes
    require (digest sha256_hex dumps d =t row.descriptor_digest)
        (runtime_error "stored merge descriptor digest mismatch")
    ok (some (stored_descriptor_from_row row))

  unfoldable pub get_merge_descriptor : String → StateStore → Result (Option StoredMergeDescriptor)
  unfolding is_hex find_row read_stored
  get_merge_descriptor descriptor_digest s = do
    require (is_hex 64 descriptor_digest)
        (value_error "descriptor_digest must be a lowercase SHA-256")
    read_stored (find_row (is_digest descriptor_digest) s.descriptors)
