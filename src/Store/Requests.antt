-- ===== src/Store/Requests.antt =====
-- reviewer/state.py: the plans of CI requests, stored under their identifiers. The parameters are
-- those of Store/Descriptors.antt and Merge/Inputs.antt.
pub mod Once
use dohwa_hermes_stack.Base.{
  ℕ, ◌≡◌, Bool, true, false, not, ◌&&◌, ◌||◌, Option, none, some, List, [], ◌∷◌, ◌++◌, String, ltb,
  ◌==◌, ◌=t◌, opt_eq, any, codes, Value, Fields, find_row, Result, ok, err, value_error,
  runtime_error, key_error, overflow_error, require, refuse, ◌>>=◌, ◌>>◌, if◌then◌else◌,
}
use dohwa_hermes_stack.Approval.Checks.{is_hex, max_int64}
use dohwa_hermes_stack.Merge.{MergeDescriptor}
use dohwa_hermes_stack.Merge.Checks.{same_codes}
use dohwa_hermes_stack.Merge.Canonical.{canonical_json, from_canonical_bytes}
use dohwa_hermes_stack.Merge.Inputs.{
  CiRequestInputs, inputs_to_mapping, inputs_from_canonical_bytes,
}
use dohwa_hermes_stack.Store.Tables.{StateStore}
use dohwa_hermes_stack.Models.{CiRequestState, planned, blocked}
use dohwa_hermes_stack.Store.Tables.Plans.{MergeDescriptorRow, CiRequestPlan}
use dohwa_hermes_stack.Store.Descriptors.{is_digest}

abbrev pub is_request : String → CiRequestPlan → Bool
is_request request_id r = r.request_id =t request_id

abbrev pub same_state : CiRequestState → CiRequestState → Bool
same_state planned planned = true
same_state blocked blocked = true
same_state planned blocked = false
same_state blocked planned = false

-- A planned request has no reason, a blocked one has a reason.
abbrev pub fitting_reason : CiRequestState → Option String → Result (Unit {0})
fitting_reason planned none = ok tt
fitting_reason planned (some reason) =
    err (value_error "PLANNED request cannot have blocked_reason")
fitting_reason blocked none = err (value_error "BLOCKED request requires blocked_reason")
fitting_reason blocked (some reason) =
    refuse (reason =t "") (value_error "BLOCKED request requires blocked_reason")

-- `length(blocked_reason) > 0` of the schema: SQLite counts the characters before a zero code.
abbrev starts_with_zero_code : List ℕ → Bool
starts_with_zero_code [] = true
starts_with_zero_code (c ∷ cs) = c == 0

abbrev pub is_stored_reason : Option String → Bool
is_stored_reason none = true
is_stored_reason (some reason) = not (starts_with_zero_code (codes reason))

abbrev pub matches_descriptor : CiRequestInputs → MergeDescriptor → Bool
matches_descriptor i d =
    (i.repository_id == d.repository_id && i.pull_number == d.pull_number)
    && ((i.base_oid =t d.base_oid && i.head_oid =t d.head_oid)
        && (i.candidate_oid =t d.candidate_oid
            && (i.workflow_sha =t d.workflow_sha && i.ci_profile =t d.ci_profile)))

unfoldable pub canonical_inputs : (Fields → List ℕ) → CiRequestInputs → List ℕ
unfolding canonical_json inputs_to_mapping
canonical_inputs dumps i = canonical_json dumps (inputs_to_mapping i)

module _ (sha256_hex : List ℕ → String) (dumps : Fields → List ℕ) where
  unfoldable pub inputs_digest : CiRequestInputs → String
  unfolding canonical_inputs
  inputs_digest i = sha256_hex (canonical_inputs dumps i)

  abbrev pub request_row : ℕ → CiRequestInputs → CiRequestState → Option String → ℕ → CiRequestPlan
  request_row descriptor_id i state blocked_reason now = record {
    request_id = i.request_id;
    review_context_id = i.review_context_id;
    descriptor_id = descriptor_id;
    workflow_id = i.workflow_id;
    workflow_path = i.workflow_path;
    workflow_sha = i.workflow_sha;
    workflow_definition_sha256 = i.workflow_definition_sha256;
    ci_profile = i.ci_profile;
    expected_actor = i.expected_actor;
    expected_installation_id = i.expected_installation_id;
    dispatch_not_before = i.dispatch_not_before;
    canonical_inputs = canonical_inputs dumps i;
    inputs_digest = inputs_digest i;
    state = state;
    blocked_reason = blocked_reason;
    created_at = now;
  }

  -- The row that is there already is this plan; the time of its creation is not compared.
  abbrev pub is_same_plan :
      ℕ → CiRequestInputs → CiRequestState → Option String → CiRequestPlan → Bool
  is_same_plan descriptor_id i state blocked_reason row =
      ((row.descriptor_id == descriptor_id
          && same_codes row.canonical_inputs (canonical_inputs dumps i))
        && (row.inputs_digest =t inputs_digest i && row.review_context_id =t i.review_context_id))
      && (((row.workflow_id == i.workflow_id && row.workflow_path =t i.workflow_path)
            && (row.workflow_definition_sha256 =t i.workflow_definition_sha256
                && row.expected_actor =t i.expected_actor))
          && ((row.expected_installation_id == i.expected_installation_id
                && row.dispatch_not_before =t i.dispatch_not_before)
              && (same_state row.state state && opt_eq ◌=t◌ row.blocked_reason blocked_reason)))

  -- `INSERT OR IGNORE`: whether the row was inserted, and the store. A row with the identifier or the
  -- digest, or a reason that the schema refuses, stops it. The other constraints of the table hold
  -- of all inputs.
  unfoldable pub insert_request : CiRequestPlan → StateStore → Bool × StateStore
  insert_request row s =
      if any (λ r. is_request row.request_id r || r.inputs_digest =t row.inputs_digest) s.requests
        || not (is_stored_reason row.blocked_reason)
      then (false, s)
      else (true, record s { requests = s.requests ++ (row ∷ []) })

  unfoldable pub found_request :
      ℕ
      → CiRequestInputs
      → CiRequestState
      → Option String
      → Bool
      → StateStore
      → Option CiRequestPlan
      → Result (CiRequestPlan × StateStore)
  found_request descriptor_id i state blocked_reason inserted s none =
      err (runtime_error "CI request insert did not persist")
  found_request descriptor_id i state blocked_reason inserted s (some row) = do
    require (inserted || is_same_plan descriptor_id i state blocked_reason row)
        (runtime_error "request_id is already bound to another immutable plan")
    ok (row, s)

  -- What becomes of the request for a descriptor that its inputs match.
  unfoldable pub place_request :
      ℕ
      → CiRequestInputs
      → CiRequestState
      → Option String
      → ℕ
      → StateStore
      → Result (CiRequestPlan × StateStore)
  unfolding insert_request found_request find_row
  place_request descriptor_id i state blocked_reason now s = do
    refuse (ltb max_int64 i.workflow_id || ltb max_int64 i.expected_installation_id) overflow_error
    let placed = insert_request (request_row descriptor_id i state blocked_reason now) s
    found_request descriptor_id i state blocked_reason placed.0 placed.1
        (find_row (is_request i.request_id) placed.1.requests)

module _ (sha1_hex sha256_hex : List ℕ → String) (reformat : String → Option String)
    (dumps : Fields → List ℕ) (loads : List ℕ → Result Value) where
  unfoldable pub request_for :
      String
      → CiRequestInputs
      → CiRequestState
      → Option String
      → ℕ
      → StateStore
      → Option MergeDescriptorRow
      → Result (CiRequestPlan × StateStore)
  unfolding from_canonical_bytes place_request
  request_for descriptor_digest i state blocked_reason now s none =
      err (key_error "unknown merge descriptor")
  request_for descriptor_digest i state blocked_reason now s (some d) = do
    descriptor ← from_canonical_bytes sha1_hex dumps loads d.canonical_bytes
    require (i.descriptor_digest =t descriptor_digest)
        (value_error "CI inputs descriptor_digest mismatch")
    require (matches_descriptor i descriptor)
        (value_error "CI inputs do not match merge descriptor")
    place_request sha256_hex dumps d.id i state blocked_reason now s

  unfoldable pub create_ci_request :
      String
      → CiRequestInputs
      → CiRequestState
      → Option String
      → ℕ
      → StateStore
      → Result (CiRequestPlan × StateStore)
  unfolding is_hex inputs_from_canonical_bytes canonical_inputs find_row request_for
  create_ci_request descriptor_digest i state blocked_reason now s = do
    require (is_hex 64 descriptor_digest)
        (value_error "descriptor_digest must be a lowercase SHA-256")
    fitting_reason state blocked_reason
    checked ← inputs_from_canonical_bytes reformat dumps loads (canonical_inputs dumps i)
    request_for descriptor_digest i state blocked_reason now s
        (find_row (is_digest descriptor_digest) s.descriptors)

  -- The columns of a row are those of its canonical inputs.
  abbrev has_columns_of : CiRequestInputs → CiRequestPlan → Bool
  has_columns_of i row =
      ((i.request_id =t row.request_id && i.review_context_id =t row.review_context_id)
        && (i.workflow_id == row.workflow_id && i.workflow_path =t row.workflow_path))
      && ((i.workflow_sha =t row.workflow_sha
            && i.workflow_definition_sha256 =t row.workflow_definition_sha256)
          && ((i.ci_profile =t row.ci_profile && i.expected_actor =t row.expected_actor)
              && (i.expected_installation_id == row.expected_installation_id
                  && i.dispatch_not_before =t row.dispatch_not_before)))

  unfoldable read_request : Option CiRequestPlan → Result (Option CiRequestPlan)
  unfolding inputs_from_canonical_bytes inputs_digest
  read_request none = ok none
  read_request (some row) = do
    i ← inputs_from_canonical_bytes reformat dumps loads row.canonical_inputs
    require (inputs_digest sha256_hex dumps i =t row.inputs_digest)
        (runtime_error "stored CI input digest mismatch")
    require (has_columns_of i row) (runtime_error "stored CI request identity mismatch")
    ok (some row)

  unfoldable get_ci_request : String → StateStore → Result (Option CiRequestPlan)
  unfolding is_hex find_row read_request
  get_ci_request request_id s = do
    require (is_hex 64 request_id)
        (value_error "request_id must be 64 lowercase hexadecimal characters")
    read_request (find_row (is_request request_id) s.requests)
