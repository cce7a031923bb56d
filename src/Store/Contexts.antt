-- ===== src/Store/Contexts.antt =====
-- reviewer/state.py: the contents of review contexts, stored under their digests. The parameters
-- are those of Approval/Context.antt.
use dohwa_hermes_stack.Base.{
  ℕ, ◌≡◌, ap, subst, ok_injective, require_ok, refuse, refuse_ok, any, Bool, ◌&&◌, ◌||◌, not,
  Option, none, some, List, [], ◌∷◌, ◌++◌, String, ◌==◌, ◌=t◌, Value, Fields, find_row, Result, ok,
  value_error, runtime_error, require, ◌>>=◌, ◌>>◌, >>=-eq-ok,
}
use dohwa_hermes_stack.Approval.Checks.{is_hex}
use dohwa_hermes_stack.Approval.Context.{
  ReviewContextContent, context_algorithm, context_bytes, context_id, context_from_canonical_bytes,
}
use dohwa_hermes_stack.Merge.Checks.{same_codes}
use dohwa_hermes_stack.Store.Tables.{ReviewContextRow, StateStore}
use dohwa_hermes_stack.Store.Consistent.{IsConsistent}
use dohwa_hermes_stack.Store.Attempts.Prepare.{is_content}

pub record StoredReviewContext : Type 0 where
  pub content_id : String
  pub algorithm_id : String
  pub canonical_bytes : List ℕ
  pub value : ReviewContextContent
  pub created_at : ℕ

-- `UNIQUE(algorithm_id, canonical_payload)`.
abbrev has_payload : List ℕ → ReviewContextRow → Bool
has_payload bytes r = r.algorithm_id =t context_algorithm && same_codes r.canonical_payload bytes

module _ (sha256_hex : List ℕ → String) (dumps : Fields → List ℕ)
    (loads : List ℕ → Result Value) where
  abbrev pub context_row : ReviewContextContent → ℕ → ReviewContextRow
  context_row value now = record {
    content_id = context_id sha256_hex dumps value;
    algorithm_id = context_algorithm;
    canonical_payload = context_bytes dumps value;
    repository_id = value.repository_id;
    pull_number = value.pull_number;
    base_sha = value.base_sha;
    head_sha = value.head_sha;
    merge_base_sha = value.merge_base_sha;
    diff_sha256 = value.diff_sha256;
    policy_version = value.policy_version;
    created_at = now;
  }

  -- The columns of a row are those of the content that its bytes are read to.
  abbrev has_columns : ReviewContextContent → ReviewContextRow → Bool
  has_columns value row =
      (context_id sha256_hex dumps value =t row.content_id && row.algorithm_id =t context_algorithm)
      && ((value.repository_id == row.repository_id && value.pull_number == row.pull_number)
          && ((value.base_sha =t row.base_sha && value.head_sha =t row.head_sha)
              && (value.merge_base_sha =t row.merge_base_sha
                  && (value.diff_sha256 =t row.diff_sha256
                      && value.policy_version =t row.policy_version))))

  unfoldable pub stored_review_context_from_row : ReviewContextRow → Result StoredReviewContext
  unfolding context_from_canonical_bytes context_id
  stored_review_context_from_row row = do
    value ← context_from_canonical_bytes dumps loads row.canonical_payload
    require (has_columns value row) (runtime_error "stored review context identity mismatch")
    ok (record {
      content_id = row.content_id;
      algorithm_id = row.algorithm_id;
      canonical_bytes = row.canonical_payload;
      value = value;
      created_at = row.created_at;
    })

  -- `INSERT OR IGNORE` and the row of the digest: a row that is there already must have the bytes,
  -- and a row of another digest with the bytes stops the insertion. So does the CHECK on
  -- what is no digest; the other constraints of the table hold of every content.
  unfoldable pub insert_or_find_context :
      ReviewContextContent
      → ℕ
      → StateStore
      → Option ReviewContextRow
      → Result (ReviewContextRow × StateStore)
  insert_or_find_context value now s none = do
    refuse
        (not (is_hex 64 (context_id sha256_hex dumps value))
          || any (has_payload (context_bytes dumps value)) s.contents)
        (runtime_error "review context insert did not persist")
    ok (context_row value now, record s { contents = s.contents ++ (context_row value now ∷ []) })
  insert_or_find_context value now s (some row) = do
    require
        (row.algorithm_id =t context_algorithm
          && same_codes row.canonical_payload (context_bytes dumps value))
        (runtime_error "review context digest collision")
    ok (row, s)

  -- The row is read back after the commit. That raises for a row that was there with other columns,
  -- and then nothing was inserted.
  unfoldable pub store_review_context :
      ReviewContextContent → ℕ → StateStore → Result (StoredReviewContext × StateStore)
  unfolding context_from_canonical_bytes context_bytes context_id find_row insert_or_find_context
      stored_review_context_from_row
  store_review_context value now s = do
    parsed ← context_from_canonical_bytes dumps loads (context_bytes dumps value)
    require (context_id sha256_hex dumps parsed =t context_id sha256_hex dumps value)
        (value_error "review context digest mismatch")
    r ←
        insert_or_find_context value now s
          (find_row (is_content (context_id sha256_hex dumps value)) s.contents)
    stored ← stored_review_context_from_row r.0
    ok (stored, r.1)

  read_context_row : Option ReviewContextRow → Result (Option StoredReviewContext)
  unfolding stored_review_context_from_row
  read_context_row none = ok none
  read_context_row (some row) = do stored ← stored_review_context_from_row row; ok (some stored)

  unfoldable pub get_review_context : String → StateStore → Result (Option StoredReviewContext)
  unfolding is_hex find_row read_context_row
  get_review_context content_id s = do
    require (is_hex 64 content_id) (value_error "content_id must be a lowercase SHA-256")
    read_context_row (find_row (is_content content_id) s.contents)

  insert_or_find_context-IsConsistent :
      (value : ReviewContextContent) (now : ℕ) (s : StateStore) (o : Option ReviewContextRow)
      (r : ReviewContextRow × StateStore)
      → insert_or_find_context value now s o ≡ ok r
      → IsConsistent s
      → IsConsistent r.1
  unfolding insert_or_find_context
  insert_or_find_context-IsConsistent value now s none r h c =
      let (_, h1) =
        refuse_ok
          (not (is_hex 64 (context_id sha256_hex dumps value))
            || any (has_payload (context_bytes dumps value)) s.contents)
          _
          (ok (
            context_row value now,
            record s { contents = s.contents ++ (context_row value now ∷ []) },
          ))
          h in
      subst (λ x. IsConsistent x.1) (ok_injective h1) c
  insert_or_find_context-IsConsistent value now s (some row) r h c =
      let (_, h1) =
        require_ok
          (row.algorithm_id =t context_algorithm
            && same_codes row.canonical_payload (context_bytes dumps value))
          _ (ok (row, s)) h in
      subst (λ x. IsConsistent x.1) (ok_injective h1) c

  -- The storage of a context keeps the invariant.
  pub store_review_context-IsConsistent :
      (value : ReviewContextContent) (now : ℕ) (s : StateStore)
      (r : StoredReviewContext × StateStore)
      → store_review_context value now s ≡ ok r
      → IsConsistent s
      → IsConsistent r.1
  unfolding store_review_context
  store_review_context-IsConsistent value now s r h c =
      let (parsed, _, h1) =
        >>=-eq-ok (context_from_canonical_bytes dumps loads (context_bytes dumps value)) _ h in
      let (_, h2) =
        require_ok (context_id sha256_hex dumps parsed =t context_id sha256_hex dumps value) _ _
          h1 in
      let (x, placed, h3) =
        >>=-eq-ok
          (insert_or_find_context value now s
            (find_row (is_content (context_id sha256_hex dumps value)) s.contents))
          _ h2 in
      let (stored, _, h4) = >>=-eq-ok (stored_review_context_from_row x.0) _ h3 in
      subst (λ u. IsConsistent u) (ap (λ y. y.1) (ok_injective h4))
        (insert_or_find_context-IsConsistent value now s
          (find_row (is_content (context_id sha256_hex dumps value)) s.contents) x placed c)
