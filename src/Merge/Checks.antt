-- ===== src/Merge/Checks.antt =====
-- The checks of reviewer/merge_descriptor.py. A check returns the checked value or raises. A text
-- of this model has no lone surrogates, so that its UTF-8 encoding always succeeds.
use dohwa_hermes_stack.Base.{
  ℕ, Bool, true, false, not, ◌&&◌, ◌||◌, Option, none, some, List, [], ◌∷◌, String, leb, ◌==◌, ◌=t◌,
  any, all, length, Value, int, str, pos, Fields, end, field, codes, Result, ok, err, value_error,
  refuse, ◌>>=◌, if◌then◌else◌,
}
use dohwa_hermes_stack.Approval.Checks.{is_hex}

abbrev pub same_codes : List ℕ → List ℕ → Bool
same_codes [] [] = true
same_codes [] (d ∷ ds) = false
same_codes (c ∷ cs) [] = false
same_codes (c ∷ cs) (d ∷ ds) = c == d && same_codes cs ds

-- `text.endswith(suffix)`.
unfoldable pub ends_with : List ℕ → List ℕ → Bool
ends_with suffix [] = same_codes [] suffix
ends_with suffix (c ∷ cs) = same_codes (c ∷ cs) suffix || ends_with suffix cs

-- `text.split(chr(separator))`: the part that is being read, and the parts after it.
abbrev onto_first : ℕ → List (List ℕ) → List (List ℕ)
onto_first c [] = (c ∷ []) ∷ []
onto_first c (part ∷ parts) = (c ∷ part) ∷ parts

unfoldable pub split : ℕ → List ℕ → List (List ℕ)
split separator [] = [] ∷ []
split separator (c ∷ cs) =
    let rest = split separator cs in if c == separator then [] ∷ rest else onto_first c rest

-- `key in mapping`, and the names of a mapping.
abbrev pub has_field : String → Fields → Bool
has_field key end = false
has_field key (field k v rest) = k =t key || has_field key rest

abbrev pub names_of : Fields → List String
names_of end = []
names_of (field k v rest) = k ∷ names_of rest

unfoldable pub require_exact_fields : Fields → List String → Result (Unit {0})
require_exact_fields value expected =
    refuse
      (not (
        all (λ name. has_field name value) expected
        && all (λ name. any (λ e. e =t name) expected) (names_of value)))
      (value_error "canonical fields differ")

unfoldable pub require_sha : Value → Result String
unfolding is_hex
require_sha (str s) = if is_hex 40 s then ok s else err (value_error "must be a lowercase SHA-1")
require_sha _ = err (value_error "must be a lowercase SHA-1")

unfoldable pub require_sha256 : Value → Result String
unfolding is_hex
require_sha256 (str s) =
    if is_hex 64 s then ok s else err (value_error "must be a lowercase SHA-256")
require_sha256 _ = err (value_error "must be a lowercase SHA-256")

unfoldable pub require_request_id : Value → Result String
unfolding is_hex
require_request_id (str s) =
    if is_hex 64 s
    then ok s
    else err (value_error "request_id must be 64 lowercase hexadecimal characters")
require_request_id _ = err (value_error "request_id must be 64 lowercase hexadecimal characters")

unfoldable pub require_positive_int : Value → Result ℕ
require_positive_int (int (pos n)) =
    if n == 0 then err (value_error "must be a positive integer") else ok n
require_positive_int _ = err (value_error "must be a positive integer")

unfoldable pub require_text : Value → Result String
require_text (str s) =
    if s =t ""
    then err (value_error "must be non-empty text")
    else if any (λ c. c == 0 || c == b'\r') (codes s)
    then err (value_error "contains a forbidden byte")
    else ok s
require_text _ = err (value_error "must be non-empty text")

unfoldable pub require_identity : Value → Result String
unfolding require_text
require_identity value = do
  result ← require_text value
  (if any (λ c. c == b'\n' || (c == b'<' || c == b'>')) (codes result)
      then err (value_error "is not a canonical Git identity component")
      else ok result)

abbrev is_workflow_file : List ℕ → Bool
is_workflow_file name =
    not (length name == 0)
    && ((ends_with (codes ".yml") name || ends_with (codes ".yaml") name)
        && not (same_codes name (codes ".") || same_codes name (codes "..")))

abbrev is_workflow_parts : List (List ℕ) → Bool
is_workflow_parts (a ∷ b ∷ c ∷ []) =
    same_codes a (codes ".github") && (same_codes b (codes "workflows") && is_workflow_file c)
is_workflow_parts _ = false

unfoldable pub require_workflow_path : Value → Result String
unfolding ends_with split
require_workflow_path (str s) =
    if is_workflow_parts (split b'/' (codes s))
    then ok s
    else err (value_error "workflow_path must be a canonical workflow path")
require_workflow_path _ = err (value_error "workflow_path must be a canonical workflow path")

abbrev is_alphanumeric : ℕ → Bool
is_alphanumeric c =
    (leb b'0' c && leb c b'9') || ((leb b'a' c && leb c b'z') || (leb b'A' c && leb c b'Z'))

abbrev is_identifier_code : ℕ → Bool
is_identifier_code c =
    is_alphanumeric c || (c == b'.' || (c == b'_' || (c == b':' || (c == b'/' || c == b'-'))))

abbrev is_safe_identifier : List ℕ → Bool
is_safe_identifier [] = false
is_safe_identifier (c ∷ cs) =
    is_alphanumeric c && (leb (length cs) 255 && all is_identifier_code cs)

unfoldable pub require_safe_identifier : Value → Result String
require_safe_identifier (str s) =
    if is_safe_identifier (codes s)
    then ok s
    else err (value_error "must be a safe ASCII identifier")
require_safe_identifier _ = err (value_error "must be a safe ASCII identifier")

-- The login of an actor is what stands before `[bot]`: no code of a login is a bracket.
abbrev before_bracket : List ℕ → List ℕ
before_bracket [] = []
before_bracket (c ∷ cs) = let rest = before_bracket cs in if c == b'[' then [] else c ∷ rest

abbrev from_bracket : List ℕ → List ℕ
from_bracket [] = []
from_bracket (c ∷ cs) = let rest = from_bracket cs in if c == b'[' then c ∷ cs else rest

abbrev is_login_code : ℕ → Bool
is_login_code c = (leb b'a' c && leb c b'z') || (leb b'0' c && leb c b'9')

-- From the code before: the login does not end in a dash, nor has two of them in a row.
abbrev is_login_after : ℕ → List ℕ → Bool
is_login_after before [] = is_login_code before
is_login_after before (c ∷ cs) =
    (is_login_code c || (c == b'-' && not (before == b'-'))) && is_login_after c cs

abbrev is_login : List ℕ → Bool
is_login [] = false
is_login (c ∷ cs) = is_login_code c && (leb (length cs) 38 && is_login_after c cs)

unfoldable pub require_github_actor : Value → Result String
require_github_actor (str s) =
    let suffix = from_bracket (codes s) in
    if is_login (before_bracket (codes s))
      && (length suffix == 0 || same_codes suffix (codes "[bot]"))
    then ok s
    else err (value_error "expected_actor must be a canonical GitHub login")
require_github_actor _ = err (value_error "expected_actor must be a canonical GitHub login")

-- `reformat` stands for `strptime` and then `strftime`; it gives none where `strptime` raises.
abbrev is_reformatted : String → Option String → Bool
is_reformatted s none = false
is_reformatted s (some t) = t =t s

unfoldable pub require_utc_seconds : (String → Option String) → Value → Result String
require_utc_seconds reformat (str s) =
    if length (codes s) == 20 && is_reformatted s (reformat s)
    then ok s
    else err (value_error "must be a canonical UTC second timestamp")
require_utc_seconds reformat _ = err (value_error "must be a canonical UTC second timestamp")
