-- ===== src/Approval/Context.antt =====
-- reviewer/approval.py: the content of a review context, and its canonical bytes. `dumps` and
-- `loads` write and read JSON as in Merge/Canonical.antt, `sha256_hex` is a digest of hashlib.
use dohwa_hermes_stack.Base.{
  ℕ, Bool, not, ◌&&◌, ◌||◌, List, [], ◌∷◌, String, ◌==◌, ◌=t◌, leb, all, any, length, pos, Value,
  object, int, str, Fields, end, field, get_field, codes, is_text, is_literal, decimal_text, Result,
  ok, err, value_error, require, ◌>>=◌, ◌>>◌, if◌then◌else◌,
}
use dohwa_hermes_stack.Approval.Checks.{positive_int, sha1, sha256, decimal}
use dohwa_hermes_stack.Merge.Checks.{same_codes, has_field, names_of}
use dohwa_hermes_stack.Merge.Commit.{append_codes}
use dohwa_hermes_stack.Merge.Canonical.{sort_fields, has_unique_names}

pub record ReviewContextContent : Type 0 where
  pub repository_id : ℕ
  pub pull_number : ℕ
  pub base_sha : String
  pub head_sha : String
  pub merge_base_sha : String
  pub diff_sha256 : String
  pub policy_version : String

abbrev pub context_schema : String
context_schema = "dohwa-review-context-content/v1"

abbrev pub context_algorithm : String
context_algorithm = "dohwa-bot/review-context-content/v1"

abbrev context_fields : List String
context_fields =
    "base_sha" ∷ "diff_sha256" ∷ "head_sha" ∷ "merge_base_sha" ∷ "policy_version"
    ∷ "pull_number_decimal" ∷ "repository_id_decimal" ∷ "schema" ∷ []

abbrev is_policy_code : ℕ → Bool
is_policy_code c =
    ((leb b'0' c && leb c b'9') || ((leb b'a' c && leb c b'z') || (leb b'A' c && leb c b'Z')))
    || (c == b'.' || (c == b'_' || c == b'-'))

policy_text : Value → Result String
policy_text (str s) =
    if not (length (codes s) == 0) && (leb (length (codes s)) 64 && all is_policy_code (codes s))
    then ok s
    else err (value_error "policy_version must be canonical ASCII")
policy_text _ = err (value_error "policy_version must be canonical ASCII")

-- The constructor of the class, with its checks.
unfoldable pub review_context_content :
    Value → Value → Value → Value → Value → Value → Value → Result ReviewContextContent
unfolding positive_int sha1 sha256 policy_text
review_context_content repository_id pull_number base_sha head_sha merge_base_sha diff_sha256
      policy_version =
    do
      repository ← positive_int repository_id
      pull ← positive_int pull_number
      base ← sha1 base_sha
      head ← sha1 head_sha
      merge_base ← sha1 merge_base_sha
      diff ← sha256 diff_sha256
      policy ← policy_text policy_version
      ok (record {
        repository_id = repository;
        pull_number = pull;
        base_sha = base;
        head_sha = head;
        merge_base_sha = merge_base;
        diff_sha256 = diff;
        policy_version = policy;
      })

unfoldable pub payload : ReviewContextContent → Fields
payload c = field "base_sha" (str c.base_sha) (
    field "diff_sha256" (str c.diff_sha256) (
      field "head_sha" (str c.head_sha) (
        field "merge_base_sha" (str c.merge_base_sha) (
          field "policy_version" (str c.policy_version) (
            field "pull_number_decimal" (str (decimal_text c.pull_number)) (
              field "repository_id_decimal" (str (decimal_text c.repository_id))
                (field "schema" (str context_schema) end)))))))

unfoldable pub context_bytes : (Fields → List ℕ) → ReviewContextContent → List ℕ
unfolding sort_fields payload
context_bytes dumps c = dumps (sort_fields (payload c))

-- `REVIEW_CONTEXT_DOMAIN` is the name of the algorithm and a zero byte.
unfoldable pub context_id : (List ℕ → String) → (Fields → List ℕ) → ReviewContextContent → String
unfolding context_bytes
context_id sha256_hex dumps c =
    sha256_hex (append_codes (codes context_algorithm) (0 ∷ context_bytes dumps c))

abbrev has_context_fields : Fields → Bool
has_context_fields f =
    all (λ name. has_field name f) context_fields
    && all (λ name. any (λ e. e =t name) context_fields) (names_of f)

context_mapping : Value → Result Fields
context_mapping (object f) = ok f
context_mapping _ = err (value_error "canonical review context fields differ")

-- The object that the bytes are read to, with the fields of a context as texts.
read_context : (List ℕ → Result Value) → List ℕ → Result Fields
unfolding has_unique_names get_field context_mapping
read_context loads raw = do
  parsed ← loads raw
  require (has_unique_names parsed) (value_error "duplicate JSON field")
  f ← context_mapping parsed
  require (has_context_fields f) (value_error "canonical review context fields differ")
  require (is_literal context_schema (get_field "schema" f))
      (value_error "unsupported review context schema")
  require (all (λ name. is_text (get_field name f)) context_fields)
      (value_error "must be a JSON string")
  ok f

unfoldable pub context_from_canonical_bytes :
    (Fields → List ℕ) → (List ℕ → Result Value) → List ℕ → Result ReviewContextContent
unfolding read_context get_field decimal review_context_content context_bytes
context_from_canonical_bytes dumps loads raw = do
  f ← read_context loads raw
  repository_id ← decimal (get_field "repository_id_decimal" f)
  pull_number ← decimal (get_field "pull_number_decimal" f)
  result ←
      review_context_content (int (pos repository_id)) (int (pos pull_number))
        (get_field "base_sha" f) (get_field "head_sha" f) (get_field "merge_base_sha" f)
        (get_field "diff_sha256" f) (get_field "policy_version" f)
  require (same_codes raw (context_bytes dumps result))
      (value_error "review context JSON is not canonical")
  ok result
