-- ===== src/Store/Descriptors/Stored.antt =====
-- What is stored of a merge descriptor is found again under its digest.
use dohwa_hermes_stack.Base.{
  ℕ, suc, ◌≡◌, refl, sym, ap, subst, ◌∙◌, Bool, true, ◌&&◌, Option, none, some, List, [], ◌∷◌, ◌++◌,
  String, arith, ◌==◌, eq_iff, eq_refl, Value, Fields, find_row, find_row_passes, max_key, Result,
  ok, >>=-eq-ok, >>=_step, require_ok,
}
use dohwa_hermes_stack.Approval.Checks.{is_hex}
use dohwa_hermes_stack.Models.{ReviewJob}
use dohwa_hermes_stack.Merge.{MergeDescriptor, to_mapping}
use dohwa_hermes_stack.Merge.Checks.{same_codes}
use dohwa_hermes_stack.Merge.Canonical.{
  canonical_json, canonical_bytes, digest, from_canonical_bytes,
}
use dohwa_hermes_stack.Merge.Canonical.RoundTrip.{
  same_codes_refl, same_codes_eq, from_canonical_bytes_canonical,
}
use dohwa_hermes_stack.Store.Tables.{StateStore}
use dohwa_hermes_stack.Store.Tables.Plans.{
  MergeDescriptorRow, StoredMergeDescriptor, stored_descriptor_from_row,
}
use dohwa_hermes_stack.Store.Consistent.{IsConsistent}
use dohwa_hermes_stack.Store.Ingest.{is_job}
use dohwa_hermes_stack.Store.Descriptors.{
  is_digest, matches_job, descriptor_row, insert_or_find, store_for, store_merge_descriptor,
  read_stored, get_merge_descriptor,
}

-- A row that no row stands before is found at the end.
pub find_row-last {ℓ} :
    {A : Type ℓ} (p : A → Bool) (xs : List A) (x : A)
    → find_row p xs ≡ none
    → p x ≡ true
    → find_row p (xs ++ (x ∷ [])) ≡ some x
unfolding find_row
find_row-last p [] x h e = ground arith
find_row-last p (y ∷ ys) x h e = ground (arith, find_row-last p ys x)

module _ (sha256_hex : List ℕ → String) (dumps : Fields → List ℕ) where
  -- What a row that is stored or found for a descriptor satisfies in the new store.
  abbrev IsStored : ℕ → MergeDescriptor → MergeDescriptorRow → StateStore → Type 0
  IsStored job_id d row t =
      (find_row (is_digest (digest sha256_hex dumps d)) t.descriptors ≡ some row)
      × (row.job_id ≡ job_id)
      × (row.canonical_bytes ≡ canonical_bytes dumps d)

  insert_or_find-IsStored :
      (job_id : ℕ) (d : MergeDescriptor) (now : ℕ) (s : StateStore) (o : Option MergeDescriptorRow)
      → find_row (is_digest (digest sha256_hex dumps d)) s.descriptors ≡ o
      → {row : MergeDescriptorRow} {t : StateStore}
      → insert_or_find sha256_hex dumps job_id d now s o ≡ ok (row, t)
      → IsStored job_id d row t × (t.jobs ≡ s.jobs) × (t.attempts ≡ s.attempts)
  unfolding insert_or_find
  insert_or_find-IsStored job_id d now s none found {row} {t} h =
      let new =
        descriptor_row sha256_hex dumps
          (suc (max_key (λ (r : MergeDescriptorRow). r.id) s.descriptors)) job_id d now in
      let same_row : new ≡ row = ground arith in
      let same : (record s { descriptors = s.descriptors ++ (new ∷ []) }) ≡ t = ground arith in
      let at_end =
        find_row-last (is_digest (digest sha256_hex dumps d)) s.descriptors new found
          (eq_refl (digest sha256_hex dumps d)) in
      subst (λ r. IsStored job_id d r t × (t.jobs ≡ s.jobs) × (t.attempts ≡ s.attempts)) same_row
        (subst (λ u. IsStored job_id d new u × (u.jobs ≡ s.jobs) × (u.attempts ≡ s.attempts)) same
          ((at_end, refl, refl), refl, refl))
  insert_or_find-IsStored job_id d now s (some row) found {row = r} {t} h =
      let (checked, h1) =
        require_ok
          (row.job_id == job_id && same_codes row.canonical_bytes (canonical_bytes dumps d)) _
          (ok (row, s)) h in
      let same : row ≡ r = ground arith in
      let is_s : s ≡ t = ground arith in
      let of_job : row.job_id ≡ job_id = ground arith in
      let bytes = same_codes_eq row.canonical_bytes (canonical_bytes dumps d) (ground arith) in
      subst (λ x. IsStored job_id d x t × (t.jobs ≡ s.jobs) × (t.attempts ≡ s.attempts)) same
        (subst (λ u. IsStored job_id d row u × (u.jobs ≡ s.jobs) × (u.attempts ≡ s.attempts)) is_s
          ((found, of_job, bytes), refl, refl))

  insert_or_find_again :
      (job_id : ℕ) (d : MergeDescriptor) (later : ℕ) (row : MergeDescriptorRow) (t : StateStore)
      → IsStored job_id d row t
      → insert_or_find sha256_hex dumps job_id d later t (some row) ≡ ok (row, t)
  unfolding insert_or_find
  insert_or_find_again job_id d later row t (found, of_job, bytes) =
      let e =
        subst (λ x. same_codes x (canonical_bytes dumps d) ≡ true) (sym bytes)
          (same_codes_refl (canonical_bytes dumps d)) in
      ground (arith, of_job, e)

  store_for-IsStored :
      (job_id : ℕ) (d : MergeDescriptor) (now : ℕ) (s : StateStore) (o : Option ReviewJob)
      {row : MergeDescriptorRow} {t : StateStore}
      → store_for sha256_hex dumps job_id d now s o ≡ ok (row, t)
      → (j : ReviewJob) × (o ≡ some j)
        × (matches_job d j ≡ ok tt)
        × IsStored job_id d row t
        × (t.jobs ≡ s.jobs)
        × (t.attempts ≡ s.attempts)
  unfolding store_for
  store_for-IsStored job_id d now s none h = absurd (cc)
  store_for-IsStored job_id d now s (some j) h =
      let (_, matches, h1) = >>=-eq-ok (matches_job d j) _ h in
      let kept = insert_or_find-IsStored job_id d now s _ refl h1 in
      (j, refl, matches, kept.0, kept.1, kept.2)

  store_for_again :
      (job_id : ℕ) (d : MergeDescriptor) (later : ℕ) (row : MergeDescriptorRow) (t : StateStore)
      (j : ReviewJob)
      → matches_job d j ≡ ok tt
      → IsStored job_id d row t
      → store_for sha256_hex dumps job_id d later t (some j) ≡ ok (row, t)
  unfolding store_for
  store_for_again job_id d later row t j matches stored =
      >>=_step _ matches (rw stored.0 (insert_or_find_again job_id d later row t stored))

module _ (sha1_hex sha256_hex : List ℕ → String) (dumps : Fields → List ℕ)
    (loads : List ℕ → Result Value) where
  digest_checked :
      (d checked : MergeDescriptor)
      → from_canonical_bytes sha1_hex dumps loads (canonical_bytes dumps d) ≡ ok checked
      → digest sha256_hex dumps checked ≡ digest sha256_hex dumps d
  unfolding digest canonical_bytes
  digest_checked d checked h = ap sha256_hex (
      sym
        (from_canonical_bytes_canonical sha1_hex dumps loads (canonical_json dumps (to_mapping d))
          checked h).1)

  read_stored-IsStored :
      (job_id : ℕ) (d checked : MergeDescriptor) (row : MergeDescriptorRow) (t : StateStore)
      → IsStored sha256_hex dumps job_id d row t
      → from_canonical_bytes sha1_hex dumps loads (canonical_bytes dumps d) ≡ ok checked
      → read_stored sha1_hex sha256_hex dumps loads (some row)
        ≡ ok (some (stored_descriptor_from_row row))
  unfolding read_stored
  read_stored-IsStored job_id d checked row t (found, of_job, bytes) readable =
      let e =
        subst (λ x. from_canonical_bytes sha1_hex dumps loads x ≡ ok checked) (sym bytes)
          readable in
      let here =
        (eq_iff row.descriptor_digest (digest sha256_hex dumps d)).0
          (find_row_passes (is_digest (digest sha256_hex dumps d)) t.descriptors found) in
      let same =
        (eq_iff (digest sha256_hex dumps checked) row.descriptor_digest).1
          (digest_checked d checked readable ∙ sym here) in
      >>=_step _ e (rw same refl)

  -- A success stored, or found, the row of the descriptor for the job.
  store_merge_descriptor_ok :
      (job_id : ℕ) (d : MergeDescriptor) (now : ℕ) (s : StateStore) {x : StoredMergeDescriptor}
      {t : StateStore}
      → store_merge_descriptor sha1_hex sha256_hex dumps loads job_id d now s ≡ ok (x, t)
      → (checked : MergeDescriptor) × (row : MergeDescriptorRow) × (j : ReviewJob)
        × (from_canonical_bytes sha1_hex dumps loads (canonical_bytes dumps d) ≡ ok checked)
        × (stored_descriptor_from_row row ≡ x)
        × (find_row (is_job job_id) s.jobs ≡ some j)
        × (matches_job d j ≡ ok tt)
        × IsStored sha256_hex dumps job_id d row t
        × (t.jobs ≡ s.jobs)
        × (t.attempts ≡ s.attempts)
  unfolding store_merge_descriptor
  store_merge_descriptor_ok job_id d now s {x} {t} h =
      let (checked, readable, h1) =
        >>=-eq-ok (from_canonical_bytes sha1_hex dumps loads (canonical_bytes dumps d)) _ h in
      let (r, placed, h2) =
        >>=-eq-ok (store_for sha256_hex dumps job_id d now s (find_row (is_job job_id) s.jobs)) _
          h1 in
      let same : r.1 ≡ t = ground arith in
      let (j, is_known, matches, stored, jobs, attempts) =
        store_for-IsStored sha256_hex dumps job_id d now s (find_row (is_job job_id) s.jobs)
          placed in
      (
        checked,
        r.0,
        j,
        readable,
        ground arith,
        is_known,
        matches,
        subst (IsStored sha256_hex dumps job_id d r.0) same stored,
        subst (λ u. u.jobs ≡ s.jobs) same jobs,
        subst (λ u. u.attempts ≡ s.attempts) same attempts,
      )

  -- Where the digest of a descriptor is 64 lowercase hexadecimal digits, as SHA-256 gives them:
  -- after the descriptor was stored for a job, it is found under its digest, with that job and its
  -- canonical bytes, and storing it for the job again, at any time, gives the same row and changes
  -- nothing.
  pub store_merge_descriptor-get_merge_descriptor :
      (job_id : ℕ) (d : MergeDescriptor) (now later : ℕ) (s t : StateStore)
      (x : StoredMergeDescriptor)
      → is_hex 64 (digest sha256_hex dumps d) ≡ true
      → store_merge_descriptor sha1_hex sha256_hex dumps loads job_id d now s ≡ ok (x, t)
      → (get_merge_descriptor sha1_hex sha256_hex dumps loads (digest sha256_hex dumps d) t
          ≡ ok (some x))
        × (store_merge_descriptor sha1_hex sha256_hex dumps loads job_id d later t ≡ ok (x, t))
        × (x.job_id ≡ job_id)
        × (x.canonical_bytes ≡ canonical_bytes dumps d)
  unfolding store_merge_descriptor get_merge_descriptor
  store_merge_descriptor-get_merge_descriptor job_id d now later s t x hex h =
      let (checked, row, j, readable, same, is_known, matches, stored, jobs, _) =
        store_merge_descriptor_ok job_id d now s h in
      let known = ap (find_row (is_job job_id)) jobs ∙ is_known in
      let again = store_for_again sha256_hex dumps job_id d later row t j matches stored in
      let read = read_stored-IsStored job_id d checked row t stored readable in
      (
        rw (hex, stored.0) (read ∙ ap (λ y. ok (some y)) same),
        >>=_step _ readable (rw known (>>=_step _ again (ap (λ y. ok (y, t)) same))),
        sym (ap (λ y. y.job_id) same) ∙ stored.1,
        sym (ap (λ y. y.canonical_bytes) same) ∙ stored.2,
      )

  pub store_merge_descriptor-IsConsistent :
      (job_id : ℕ) (d : MergeDescriptor) (now : ℕ) (s : StateStore)
      (r : StoredMergeDescriptor × StateStore)
      → store_merge_descriptor sha1_hex sha256_hex dumps loads job_id d now s ≡ ok r
      → IsConsistent s
      → IsConsistent r.1
  store_merge_descriptor-IsConsistent job_id d now s r h c =
      let (_, _, _, _, _, _, _, _, jobs, attempts) =
        store_merge_descriptor_ok job_id d now s {x = r.0} {t = r.1} h in
      rw (jobs, attempts) c
