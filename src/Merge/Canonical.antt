-- ===== src/Merge/Canonical.antt =====
-- The canonical bytes of a mapping, in reviewer/merge_descriptor.py. `dumps` stands for the bytes
-- that `json.dumps` writes of a mapping in the order of its fields, and `loads` for decoding bytes
-- as UTF-8 and reading them as JSON with every pair of an object kept, which may raise.
pub mod RoundTrip
use dohwa_hermes_stack.Base.{
  ℕ, Bool, true, false, not, ◌&&◌, List, [], ◌∷◌, String, text_before, Value, null, bool, int, str,
  datetime, array, object, Items, nil, cons, Fields, end, field, Result, ok, err, value_error,
  require, ◌>>=◌, ◌>>◌, if◌then◌else◌,
}
use dohwa_hermes_stack.Merge.{MergeDescriptor, from_mapping, to_mapping}
use dohwa_hermes_stack.Merge.Checks.{same_codes, ends_with, has_field}
use dohwa_hermes_stack.Merge.Commit.{append_codes}

-- `sort_keys=True`.
abbrev insert_field : String → Value → Fields → Fields
insert_field key value end = field key value end
insert_field key value (field k v rest) =
    let later = insert_field key value rest in
    if text_before k key then field k v later else field key value (field k v rest)

unfoldable pub sort_fields : Fields → Fields
sort_fields end = end
sort_fields (field k v rest) = insert_field k v (sort_fields rest)

-- `_reject_duplicate_pairs`, which reading calls at every object.
unfoldable mutual
  pub has_unique_names : Value → Bool
  has_unique_names (array vs) = items_have_unique_names vs
  has_unique_names (object f) = fields_have_unique_names f
  has_unique_names _ = true

  items_have_unique_names : Items → Bool
  items_have_unique_names nil = true
  items_have_unique_names (cons v vs) = has_unique_names v && items_have_unique_names vs

  fields_have_unique_names : Fields → Bool
  fields_have_unique_names end = true
  fields_have_unique_names (field k v rest) =
      not (has_field k rest) && (has_unique_names v && fields_have_unique_names rest)

unfoldable pub canonical_json : (Fields → List ℕ) → Fields → List ℕ
unfolding sort_fields
canonical_json dumps value = append_codes (dumps (sort_fields value)) (b'\n' ∷ [])

-- The fields of a JSON object.
abbrev pub fields_of : Value → Result Fields
fields_of (object f) = ok f
fields_of _ = err (value_error "must be a JSON object")

-- The mapping that canonical bytes are read to.
unfoldable pub read_mapping : (List ℕ → Result Value) → List ℕ → Result Fields
unfolding ends_with has_unique_names
read_mapping loads value = do
  require (ends_with (b'\n' ∷ []) value) (value_error "must be LF-terminated bytes")
  parsed ← loads value
  require (has_unique_names parsed) (value_error "duplicate JSON field")
  fields_of parsed

-- `canonical_bytes` and `digest` of a descriptor.
unfoldable pub canonical_bytes : (Fields → List ℕ) → MergeDescriptor → List ℕ
unfolding canonical_json to_mapping
canonical_bytes dumps d = canonical_json dumps (to_mapping d)

unfoldable pub digest : (List ℕ → String) → (Fields → List ℕ) → MergeDescriptor → String
unfolding canonical_bytes
digest sha256_hex dumps d = sha256_hex (canonical_bytes dumps d)

module _ (sha1_hex : List ℕ → String) (dumps : Fields → List ℕ)
    (loads : List ℕ → Result Value) where
  unfoldable pub from_canonical_bytes : List ℕ → Result MergeDescriptor
  unfolding read_mapping from_mapping to_mapping canonical_json
  from_canonical_bytes value = do
    mapping ← read_mapping loads value
    descriptor ← from_mapping sha1_hex mapping
    require (same_codes (canonical_json dumps (to_mapping descriptor)) value)
        (value_error "merge descriptor bytes are not canonical")
    ok descriptor
