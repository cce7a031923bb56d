-- ===== src/Merge/RoundTrip.antt =====
-- A merge descriptor is read back from the mapping that it writes.
use dohwa_hermes_stack.Base.{
  ℕ, ◌≡◌, refl, ap, subst, true, false, List, String, arith, ◌=t◌, pos, Value, int, str, Fields,
  is_literal, ok, >>=-eq-ok, require_ok, refuse_ok, eq_refl, get_field, array, cons, nil,
}
use dohwa_hermes_stack.Merge.{
  Attributes, MergeDescriptor, require_timestamp, require_message, require_candidate, post_init,
  Oids, People, Profiles, require_oids, require_people, require_profiles, assemble, attributes_of,
  from_mapping, attributes, to_mapping, are_parents, descriptor_fields,
}
use dohwa_hermes_stack.Merge.Equality.{same_value}
use dohwa_hermes_stack.Merge.Checks.{
  require_exact_fields, require_sha, require_positive_int, require_text, require_identity,
}

-- What a check returns passes it again.
pub positive_int_again :
    (v : Value) {n : ℕ} → require_positive_int v ≡ ok n → require_positive_int (int (pos n)) ≡ ok n
unfolding require_positive_int
positive_int_again v h = ground arith

pub sha_again : (v : Value) {s : String} → require_sha v ≡ ok s → require_sha (str s) ≡ ok s
unfolding require_sha
sha_again v h = ground arith

pub text_again : (v : Value) {s : String} → require_text v ≡ ok s → require_text (str s) ≡ ok s
unfolding require_text
text_again v h = ground arith

identity_again :
    (v : Value) {s : String} → require_identity v ≡ ok s → require_identity (str s) ≡ ok s
unfolding require_identity
identity_again v h =
    let (t, p, q) = >>=-eq-ok (require_text v) _ h in ground (arith, text_again v {s = t} p)

message_again : (v : Value) {s : String} → require_message v ≡ ok s → require_message (str s) ≡ ok s
unfolding require_message
message_again v h =
    let (t, p, q) = >>=-eq-ok (require_text v) _ h in ground (arith, text_again v {s = t} p)

timestamp_again :
    (v : Value) {n : ℕ} → require_timestamp v ≡ ok n → require_timestamp (int (pos n)) ≡ ok n
unfolding require_timestamp
timestamp_again v h = ground arith

-- What the checked fields of each group satisfy.
abbrev pub IsOids : Oids → Type 0
IsOids o =
    (require_sha (str o.base_oid) ≡ ok o.base_oid)
    × (require_sha (str o.head_oid) ≡ ok o.head_oid)
    × (require_sha (str o.merge_base_oid) ≡ ok o.merge_base_oid)
    × (require_sha (str o.tree_oid) ≡ ok o.tree_oid)
    × (require_sha (str o.candidate_oid) ≡ ok o.candidate_oid)
    × (require_sha (str o.workflow_sha) ≡ ok o.workflow_sha)

abbrev pub IsPeople : People → Type 0
IsPeople p =
    (require_identity (str p.author_name) ≡ ok p.author_name)
    × (require_identity (str p.author_email) ≡ ok p.author_email)
    × (require_identity (str p.committer_name) ≡ ok p.committer_name)
    × (require_identity (str p.committer_email) ≡ ok p.committer_email)

abbrev pub IsProfiles : Profiles → Type 0
IsProfiles p =
    (require_text (str p.ci_profile) ≡ ok p.ci_profile)
    × (require_text (str p.git_profile) ≡ ok p.git_profile)
    × (require_text (str p.policy_version) ≡ ok p.policy_version)

require_oids-IsOids : (a : Attributes) {o : Oids} → require_oids a ≡ ok o → IsOids o
unfolding require_oids
require_oids-IsOids a {o} h =
    let (b, e1, h1) = >>=-eq-ok (require_sha a.base_oid) _ h in
    let (d, e2, h2) = >>=-eq-ok (require_sha a.head_oid) _ h1 in
    let (m, e3, h3) = >>=-eq-ok (require_sha a.merge_base_oid) _ h2 in
    let (t, e4, h4) = >>=-eq-ok (require_sha a.tree_oid) _ h3 in
    let (c, e5, h5) = >>=-eq-ok (require_sha a.candidate_oid) _ h4 in
    let (w, e6, h6) = >>=-eq-ok (require_sha a.workflow_sha) _ h5 in
    let same : (record {
      base_oid = b;
      head_oid = d;
      merge_base_oid = m;
      tree_oid = t;
      candidate_oid = c;
      workflow_sha = w;
    })
        ≡ o =
      ground arith in
    subst IsOids same (
      sha_again a.base_oid e1,
      sha_again a.head_oid e2,
      sha_again a.merge_base_oid e3,
      sha_again a.tree_oid e4,
      sha_again a.candidate_oid e5,
      sha_again a.workflow_sha e6,
    )

require_people-IsPeople : (a : Attributes) {p : People} → require_people a ≡ ok p → IsPeople p
unfolding require_people
require_people-IsPeople a {p} h =
    let (n, e1, h1) = >>=-eq-ok (require_identity a.author_name) _ h in
    let (m, e2, h2) = >>=-eq-ok (require_identity a.author_email) _ h1 in
    let (c, e3, h3) = >>=-eq-ok (require_identity a.committer_name) _ h2 in
    let (d, e4, h4) = >>=-eq-ok (require_identity a.committer_email) _ h3 in
    let same : (record {
      author_name = n;
      author_email = m;
      committer_name = c;
      committer_email = d;
    })
        ≡ p =
      ground arith in
    subst IsPeople same (
      identity_again a.author_name e1,
      identity_again a.author_email e2,
      identity_again a.committer_name e3,
      identity_again a.committer_email e4,
    )

require_profiles-IsProfiles :
    (a : Attributes) {p : Profiles} → require_profiles a ≡ ok p → IsProfiles p
unfolding require_profiles
require_profiles-IsProfiles a {p} h =
    let (c, e1, h1) = >>=-eq-ok (require_text a.ci_profile) _ h in
    let (g, e2, h2) = >>=-eq-ok (require_text a.git_profile) _ h1 in
    let (v, e3, h3) = >>=-eq-ok (require_text a.policy_version) _ h2 in
    let same : (record { ci_profile = c; git_profile = g; policy_version = v }) ≡ p =
      ground arith in
    subst IsProfiles same
      (text_again a.ci_profile e1, text_again a.git_profile e2, text_again a.policy_version e3)

abbrev oids_of : MergeDescriptor → Oids
oids_of d = record {
  base_oid = d.base_oid;
  head_oid = d.head_oid;
  merge_base_oid = d.merge_base_oid;
  tree_oid = d.tree_oid;
  candidate_oid = d.candidate_oid;
  workflow_sha = d.workflow_sha;
}

abbrev people_of : MergeDescriptor → People
people_of d = record {
  author_name = d.author_name;
  author_email = d.author_email;
  committer_name = d.committer_name;
  committer_email = d.committer_email;
}

abbrev profiles_of : MergeDescriptor → Profiles
profiles_of d = record {
  ci_profile = d.ci_profile;
  git_profile = d.git_profile;
  policy_version = d.policy_version;
}

oids_again :
    (d : MergeDescriptor) → IsOids (oids_of d) → require_oids (attributes d) ≡ ok (oids_of d)
unfolding require_oids
oids_again d (e1, e2, e3, e4, e5, e6) = rw (e1, e2, e3, e4, e5, e6) refl

people_again :
    (d : MergeDescriptor)
    → IsPeople (people_of d)
    → require_people (attributes d) ≡ ok (people_of d)
unfolding require_people
people_again d (e1, e2, e3, e4) = rw (e1, e2, e3, e4) refl

profiles_again :
    (d : MergeDescriptor)
    → IsProfiles (profiles_of d)
    → require_profiles (attributes d) ≡ ok (profiles_of d)
unfolding require_profiles
profiles_again d (e1, e2, e3) = rw (e1, e2, e3) refl

attributes_of-to_mapping : (d : MergeDescriptor) → attributes_of (to_mapping d) ≡ attributes d
unfolding attributes_of to_mapping
attributes_of-to_mapping d = refl

exact_fields_written :
    (d : MergeDescriptor) → require_exact_fields (to_mapping d) descriptor_fields ≡ ok tt
unfolding require_exact_fields to_mapping
exact_fields_written d = refl

pub are_parents_same :
    (base head : String)
    → are_parents (str base) (str head) (array (cons (str base) (cons (str head) nil))) ≡ true
unfolding are_parents same_value
are_parents_same base head = rw (eq_refl base, eq_refl head) refl

are_parents-to_mapping :
    (d : MergeDescriptor)
    → are_parents
        (get_field "base_oid" (to_mapping d))
        (get_field "head_oid" (to_mapping d))
        (get_field "parents" (to_mapping d))
      ≡ true
unfolding to_mapping get_field
are_parents-to_mapping d = are_parents_same d.base_oid d.head_oid

schema_written :
    (d : MergeDescriptor)
    → is_literal "merge-descriptor/v1" (get_field "schema" (to_mapping d)) ≡ true
unfolding to_mapping get_field
schema_written d = refl

module _ (sha1_hex : List ℕ → String) where
  candidate_same :
      (e d : MergeDescriptor)
      → require_candidate sha1_hex e ≡ ok d
      → (e ≡ d) × (require_candidate sha1_hex e ≡ ok e)
  unfolding require_candidate
  candidate_same e d h = (ground arith, ground arith)

  -- What every descriptor satisfies: it passes each check of its class.
  abbrev pub IsChecked : MergeDescriptor → Type 0
  IsChecked d =
      (require_positive_int (int (pos d.repository_id)) ≡ ok d.repository_id)
      × (require_positive_int (int (pos d.pull_number)) ≡ ok d.pull_number)
      × IsOids (oids_of d)
      × ((d.base_oid =t d.head_oid) ≡ false)
      × (require_message (str d.message) ≡ ok d.message)
      × IsPeople (people_of d)
      × IsProfiles (profiles_of d)
      × (require_candidate sha1_hex d ≡ ok d)

  pub post_init-IsChecked :
      (a : Attributes) {d : MergeDescriptor} → post_init sha1_hex a ≡ ok d → IsChecked d
  unfolding post_init
  post_init-IsChecked a {d} h =
      let (r, e1, h1) = >>=-eq-ok (require_positive_int a.repository_id) _ h in
      let (p, e2, h2) = >>=-eq-ok (require_positive_int a.pull_number) _ h1 in
      let (_, h3) = require_ok (is_literal "sha1" a.object_format) _ _ h2 in
      let (o, e4, h4) = >>=-eq-ok (require_oids a) _ h3 in
      let (distinct, h5) = refuse_ok (o.base_oid =t o.head_oid) _ _ h4 in
      let (m, e6, h6) = >>=-eq-ok (require_message a.message) _ h5 in
      let (w, e7, h7) = >>=-eq-ok (require_people a) _ h6 in
      let (t, e8, h8) = >>=-eq-ok (require_timestamp a.timestamp) _ h7 in
      let (_, h9) = require_ok (is_literal "+0000" a.timezone) _ _ h8 in
      let (f, e10, h10) = >>=-eq-ok (require_profiles a) _ h9 in
      let (same, checked) = candidate_same (assemble r p o m w t f) d h10 in
      subst IsChecked same (
        positive_int_again a.repository_id e1,
        positive_int_again a.pull_number e2,
        require_oids-IsOids a e4,
        distinct,
        message_again a.message e6,
        require_people-IsPeople a e7,
        require_profiles-IsProfiles a e10,
        checked,
      )

  pub post_init_again :
      (d : MergeDescriptor) → IsChecked d → post_init sha1_hex (attributes d) ≡ ok d
  unfolding post_init require_timestamp
  post_init_again d (e1, e2, o, distinct, m, w, f, c) =
      rw (e1, e2, oids_again d o, distinct, m, people_again d w, profiles_again d f, c) refl

  pub from_mapping-IsChecked :
      (value : Fields) {d : MergeDescriptor} → from_mapping sha1_hex value ≡ ok d → IsChecked d
  unfolding from_mapping
  from_mapping-IsChecked value h =
      let (_, _, h1) = >>=-eq-ok (require_exact_fields value descriptor_fields) _ h in
      let (_, h2) =
        require_ok (is_literal "merge-descriptor/v1" (get_field "schema" value)) _ _ h1 in
      let (_, h3) =
        require_ok
          (are_parents (get_field "base_oid" value) (get_field "head_oid" value)
            (get_field "parents" value))
          _ _ h2 in
      post_init-IsChecked (attributes_of value) h3

  pub IsChecked-from_mapping :
      (d : MergeDescriptor) → IsChecked d → from_mapping sha1_hex (to_mapping d) ≡ ok d
  unfolding from_mapping
  IsChecked-from_mapping d c =
      let e1 = exact_fields_written d in
      let e2 = schema_written d in
      let e3 = are_parents-to_mapping d in
      let e4 = ap (post_init sha1_hex) (attributes_of-to_mapping d) in
      ground (arith, e1, e2, e3, e4, post_init_again d c)

  -- A descriptor that a mapping is read to is read again from the mapping that it writes.
  from_mapping-to_mapping :
      (value : Fields) (d : MergeDescriptor)
      → from_mapping sha1_hex value ≡ ok d
      → from_mapping sha1_hex (to_mapping d) ≡ ok d
  from_mapping-to_mapping value d h = IsChecked-from_mapping d (from_mapping-IsChecked value h)
