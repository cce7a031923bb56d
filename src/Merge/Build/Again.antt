-- ===== src/Merge/Build/Again.antt =====
-- A merge descriptor is determined by the arguments of `build`.
use dohwa_hermes_stack.Base.{
  ℕ, ◌≡◌, refl, sym, subst, ◌∙◌, List, String, pos, Fields, ok, arith, eq_iff, str, >>=-eq-ok,
  >>=_step,
}
use dohwa_hermes_stack.Merge.{
  MergeDescriptor, require_candidate, computed_candidate_oid, post_init, from_mapping, to_mapping,
}
use dohwa_hermes_stack.Merge.Checks.{require_sha, require_identity}
use dohwa_hermes_stack.Merge.{require_message}
use dohwa_hermes_stack.Merge.Commit.{git_object_oid}
use dohwa_hermes_stack.Merge.Build.{Arguments, arguments_with, commit_of, build}
use dohwa_hermes_stack.Merge.RoundTrip.{
  IsChecked, post_init-IsChecked, post_init_again, from_mapping-IsChecked, IsChecked-from_mapping,
}

-- The arguments that a descriptor is built from.
abbrev pub arguments_of : MergeDescriptor → Arguments
arguments_of d = record {
  repository_id = pos d.repository_id;
  pull_number = pos d.pull_number;
  base_oid = d.base_oid;
  head_oid = d.head_oid;
  merge_base_oid = d.merge_base_oid;
  tree_oid = d.tree_oid;
  message = d.message;
  author_name = d.author_name;
  author_email = d.author_email;
  committer_name = d.committer_name;
  committer_email = d.committer_email;
  timestamp = pos d.timestamp;
  ci_profile = d.ci_profile;
  workflow_sha = d.workflow_sha;
  git_profile = d.git_profile;
  policy_version = d.policy_version;
}

module _ (sha1_hex : List ℕ → String) where
  candidate_computed :
      (d : MergeDescriptor)
      → require_candidate sha1_hex d ≡ ok d
      → computed_candidate_oid sha1_hex d ≡ d.candidate_oid
  unfolding require_candidate
  candidate_computed d h =
      sym ((eq_iff d.candidate_oid (computed_candidate_oid sha1_hex d)).0 (ground arith))

  computed_commit_of :
      (d : MergeDescriptor)
      → git_object_oid sha1_hex (commit_of (arguments_of d)) ≡ computed_candidate_oid sha1_hex d
  unfolding commit_of computed_candidate_oid
  computed_commit_of d = refl

  build_checked :
      (d : MergeDescriptor) → IsChecked sha1_hex d → build sha1_hex (arguments_of d) ≡ ok d
  unfolding build
  build_checked d c =
      let (e1, e2, (b, h, mb, t, cd, w), distinct, m, (an, ae, cn, ce), f, r) = c in
      let oid = computed_commit_of d ∙ candidate_computed d r in
      let last =
        subst (λ x. post_init sha1_hex (arguments_with (arguments_of d) x) ≡ ok d) (sym oid)
          (post_init_again sha1_hex d c) in
      >>=_step _ t (
        >>=_step _ b (
          >>=_step _ h
            (>>=_step _ an (>>=_step _ ae (>>=_step _ cn (>>=_step _ ce (>>=_step _ m last)))))))

  build-IsChecked :
      (k : Arguments) {d : MergeDescriptor} → build sha1_hex k ≡ ok d → IsChecked sha1_hex d
  unfolding build
  build-IsChecked k h =
      let (_, _, h1) = >>=-eq-ok (require_sha (str k.tree_oid)) _ h in
      let (_, _, h2) = >>=-eq-ok (require_sha (str k.base_oid)) _ h1 in
      let (_, _, h3) = >>=-eq-ok (require_sha (str k.head_oid)) _ h2 in
      let (_, _, h4) = >>=-eq-ok (require_identity (str k.author_name)) _ h3 in
      let (_, _, h5) = >>=-eq-ok (require_identity (str k.author_email)) _ h4 in
      let (_, _, h6) = >>=-eq-ok (require_identity (str k.committer_name)) _ h5 in
      let (_, _, h7) = >>=-eq-ok (require_identity (str k.committer_email)) _ h6 in
      let (_, _, h8) = >>=-eq-ok (require_message (str k.message)) _ h7 in
      post_init-IsChecked sha1_hex (arguments_with k (git_object_oid sha1_hex (commit_of k))) h8

  -- What is built is read back from the mapping that it writes.
  from_mapping-build :
      (k : Arguments) (d : MergeDescriptor)
      → build sha1_hex k ≡ ok d
      → from_mapping sha1_hex (to_mapping d) ≡ ok d
  from_mapping-build k d h = IsChecked-from_mapping sha1_hex d (build-IsChecked k h)

  -- A descriptor that is read from a mapping is the one that `build` makes of its fields without
  -- the object id of the candidate: the two ways to a descriptor compute the same.
  pub build-from_mapping :
      (value : Fields) (d : MergeDescriptor)
      → from_mapping sha1_hex value ≡ ok d
      → build sha1_hex (arguments_of d) ≡ ok d
  build-from_mapping value d h = build_checked d (from_mapping-IsChecked sha1_hex value h)
