-- ===== src/Store/Requests/Once.antt =====
-- The identifier of a CI request is bound to one plan.
use dohwa_hermes_stack.Base.{
  ap₂, Error, err, Result-cases, ◌⊎◌, ℕ, ◌≡◌, refl, sym, ap, subst, ◌∙◌, Bool, true, false, not,
  ◌&&◌, ◌||◌, Option, none, some, List, [], ◌∷◌, ◌++◌, String, arith, ltb, ◌=t◌, any, eq_refl,
  Value, Fields, find_row, any-find_row, Result, ok, >>=-eq-ok, require_ok, refuse_ok, Bool-cases,
  Option-cases, inl, inr, opt_eq-text,
}
use dohwa_hermes_stack.Approval.Checks.{is_hex, max_int64}
use dohwa_hermes_stack.Merge.Canonical.{from_canonical_bytes}
use dohwa_hermes_stack.Merge.Canonical.RoundTrip.{same_codes_refl, same_codes_eq}
use dohwa_hermes_stack.Merge.Inputs.{CiRequestInputs, inputs_from_canonical_bytes}
use dohwa_hermes_stack.Store.Tables.{StateStore}
use dohwa_hermes_stack.Models.{CiRequestState, planned, blocked}
use dohwa_hermes_stack.Store.Tables.Plans.{MergeDescriptorRow, CiRequestPlan}
use dohwa_hermes_stack.Store.Consistent.{IsConsistent}
use dohwa_hermes_stack.Store.Descriptors.{is_digest}
use dohwa_hermes_stack.Store.Descriptors.Stored.{find_row-last}
use dohwa_hermes_stack.Store.Requests.{
  is_request, same_state, fitting_reason, is_stored_reason, matches_descriptor, canonical_inputs,
  inputs_digest, request_row, is_same_plan, insert_request, found_request, place_request,
  request_for, create_ci_request,
}

any_last {ℓ} :
    {A : Type ℓ} (p : A → Bool) (xs : List A) (x : A) → p x ≡ true → any p (xs ++ (x ∷ [])) ≡ true
any_last p [] x h = ground arith
any_last p (y ∷ ys) x h = ground (arith, any_last p ys x h)

find_row_free {ℓ} :
    {A : Type ℓ} (p q : A → Bool) (xs : List A)
    → any (λ x. p x || q x) xs ≡ false
    → find_row p xs ≡ none
unfolding find_row
find_row_free p q [] h = refl
find_row_free p q (x ∷ xs) h = ground (arith, find_row_free p q xs)

both : (a b : Bool) → (a && b) ≡ true → (a ≡ true) × (b ≡ true)
both true b h = (refl, h)
both false b h = absurd (cc)

any_or {ℓ} :
    {A : Type ℓ} (p q : A → Bool) (xs : List A) → any p xs ≡ true → any (λ x. p x || q x) xs ≡ true
any_or p q [] h = cc
any_or p q (x ∷ xs) h = ground (arith, any_or p q xs)

same_state_eq : (a b c : CiRequestState) → same_state a b ≡ true → same_state a c ≡ true → c ≡ b
same_state_eq planned planned planned h g = refl
same_state_eq blocked blocked blocked h g = refl
same_state_eq planned blocked c h g = absurd (cc)
same_state_eq blocked planned c h g = absurd (cc)
same_state_eq planned planned blocked h g = absurd (cc)
same_state_eq blocked blocked planned h g = absurd (cc)

same_state_refl : (state : CiRequestState) → same_state state state ≡ true
same_state_refl planned = refl
same_state_refl blocked = refl

module _ (sha256_hex : List ℕ → String) (dumps : Fields → List ℕ) where
  is_same_plan_refl :
      (k : ℕ) (i : CiRequestInputs) (state : CiRequestState) (reason : Option String) (now : ℕ)
      → is_same_plan sha256_hex dumps k i state reason
          (request_row sha256_hex dumps k i state reason now)
        ≡ true
  is_same_plan_refl k i state reason now =
      let e1 = same_codes_refl (canonical_inputs dumps i) in
      let e2 = eq_refl (inputs_digest sha256_hex dumps i) in
      let e3 = eq_refl i.review_context_id in
      let e4 = eq_refl i.workflow_path in
      let e5 = eq_refl i.workflow_definition_sha256 in
      let e6 = eq_refl i.expected_actor in
      let e7 = eq_refl i.dispatch_not_before in
      let e8 = same_state_refl state in let e9 = (opt_eq-text reason reason).1 refl in ground arith

  -- What a row that is bound to a request satisfies in the store.
  abbrev IsBound :
      ℕ → CiRequestInputs → CiRequestState → Option String → CiRequestPlan → StateStore → Type 0
  IsBound k i state reason row t =
      (find_row (is_request i.request_id) t.requests ≡ some row)
      × (is_same_plan sha256_hex dumps k i state reason row ≡ true)

  -- The tables that a request leaves alone.
  abbrev KeepsOthers : StateStore → StateStore → Type 0
  KeepsOthers s t = (t.descriptors ≡ s.descriptors) × (t.jobs ≡ s.jobs) × (t.attempts ≡ s.attempts)

  found_request_ok :
      (k : ℕ) (i : CiRequestInputs) (state : CiRequestState) (reason : Option String) (b : Bool)
      (s : StateStore) (o : Option CiRequestPlan) {row : CiRequestPlan} {t : StateStore}
      → found_request sha256_hex dumps k i state reason b s o ≡ ok (row, t)
      → (o ≡ some row)
        × (s ≡ t)
        × ((b || is_same_plan sha256_hex dumps k i state reason row) ≡ true)
  unfolding found_request
  found_request_ok k i state reason b s none h = absurd (cc)
  found_request_ok k i state reason b s (some found) {row} {t} h =
      let (checked, h1) =
        require_ok (b || is_same_plan sha256_hex dumps k i state reason found) _ (ok (found, s))
          h in
      let same : found ≡ row = ground arith in
      (
        ap (λ x. some x) same,
        ground arith,
        subst (λ x. (b || is_same_plan sha256_hex dumps k i state reason x) ≡ true) same checked,
      )

  -- What stops an insertion.
  abbrev is_stopped : CiRequestPlan → StateStore → Bool
  is_stopped row s =
      any (λ r. is_request row.request_id r || r.inputs_digest =t row.inputs_digest) s.requests
      || not (is_stored_reason row.blocked_reason)

  insert_request_stopped :
      (row : CiRequestPlan) (s : StateStore)
      → is_stopped row s ≡ true
      → insert_request sha256_hex dumps row s ≡ (false, s)
  unfolding insert_request
  insert_request_stopped row s h = rw h refl

  insert_request_free :
      (row : CiRequestPlan) (s : StateStore)
      → is_stopped row s ≡ false
      → insert_request sha256_hex dumps row s
        ≡ (true, record s { requests = s.requests ++ (row ∷ []) })
  unfolding insert_request
  insert_request_free row s h = rw h refl

  place_request-IsBound :
      (k : ℕ) (i : CiRequestInputs) (state : CiRequestState) (reason : Option String) (now : ℕ)
      (s : StateStore) {row : CiRequestPlan} {t : StateStore}
      → place_request sha256_hex dumps k i state reason now s ≡ ok (row, t)
      → IsBound k i state reason row t
        × KeepsOthers s t
        × ((ltb max_int64 i.workflow_id || ltb max_int64 i.expected_installation_id) ≡ false)
  unfolding place_request
  place_request-IsBound k i state reason now s {row} {t} h =
      let new = request_row sha256_hex dumps k i state reason now in
      let (fits, h1) =
        refuse_ok (ltb max_int64 i.workflow_id || ltb max_int64 i.expected_installation_id) _ _ h in
      elim (Bool-cases (is_stopped new s)) [
        | inl stopped ↦
            let (found, same, checked) =
              found_request_ok k i state reason false s
                (find_row (is_request i.request_id) s.requests)
                (rw (insert_request_stopped new s stopped) at h1) in
            subst
              (λ u.
                IsBound k i state reason row u
                × KeepsOthers s u
                × ((ltb max_int64 i.workflow_id || ltb max_int64 i.expected_installation_id)
                    ≡ false))
              same ((found, checked), (refl, refl, refl), fits)
        | inr free ↦
            let u = record s { requests = s.requests ++ (new ∷ []) } in
            let (found, same, _) =
              found_request_ok k i state reason true u
                (find_row (is_request i.request_id) u.requests)
                (rw (insert_request_free new s free) at h1) in
            let nowhere =
              find_row_free (is_request i.request_id)
                (λ r. r.inputs_digest =t inputs_digest sha256_hex dumps i) s.requests
                (ground arith) in
            let at_end =
              find_row-last (is_request i.request_id) s.requests new nowhere
                (eq_refl i.request_id) in
            let is_new : new ≡ row = ground (arith, at_end, found) in
            let bound =
              subst (λ x. is_same_plan sha256_hex dumps k i state reason x ≡ true) is_new
                (is_same_plan_refl k i state reason now) in
            subst
              (λ v.
                IsBound k i state reason row v
                × KeepsOthers s v
                × ((ltb max_int64 i.workflow_id || ltb max_int64 i.expected_installation_id)
                    ≡ false))
              same ((found, bound), (refl, refl, refl), fits)
      ]

  -- A request whose identifier is bound inserts nothing and gives the row that is there.
  place_request_bound :
      (k : ℕ) (i : CiRequestInputs) (state : CiRequestState) (reason : Option String) (now : ℕ)
      (t : StateStore) (row : CiRequestPlan)
      → find_row (is_request i.request_id) t.requests ≡ some row
      → {y : CiRequestPlan} {u : StateStore}
      → place_request sha256_hex dumps k i state reason now t ≡ ok (y, u)
      → (y ≡ row) × (u ≡ t) × (is_same_plan sha256_hex dumps k i state reason row ≡ true)
  unfolding place_request
  place_request_bound k i state reason now t row bound {y} {u} h =
      let new = request_row sha256_hex dumps k i state reason now in
      let (_, h1) =
        refuse_ok (ltb max_int64 i.workflow_id || ltb max_int64 i.expected_installation_id) _ _ h in
      let known = any-find_row (is_request i.request_id) t.requests bound in
      let stopped : is_stopped new t ≡ true = ground (
        arith,
        any_or (is_request i.request_id) (λ r. r.inputs_digest =t inputs_digest sha256_hex dumps i)
            t.requests known,
      ) in
      let (found, same, checked) =
        found_request_ok k i state reason false t (find_row (is_request i.request_id) t.requests)
          (rw (insert_request_stopped new t stopped) at h1) in
      let is_row : y ≡ row = ground (arith, bound, found) in
      (
        is_row,
        sym same,
        subst (λ x. is_same_plan sha256_hex dumps k i state reason x ≡ true) is_row checked,
      )

  place_request_again :
      (k : ℕ) (i : CiRequestInputs) (state : CiRequestState) (reason : Option String) (now : ℕ)
      (t : StateStore) (row : CiRequestPlan)
      → IsBound k i state reason row t
      → (ltb max_int64 i.workflow_id || ltb max_int64 i.expected_installation_id) ≡ false
      → place_request sha256_hex dumps k i state reason now t ≡ ok (row, t)
  unfolding place_request found_request
  place_request_again k i state reason now t row (bound, same) fits =
      let known = any-find_row (is_request i.request_id) t.requests bound in
      let stopped : is_stopped (request_row sha256_hex dumps k i state reason now) t ≡ true =
        ground (
          arith,
          any_or (is_request i.request_id)
              (λ r. r.inputs_digest =t inputs_digest sha256_hex dumps i) t.requests known,
        ) in
      rw
        (
          fits,
          insert_request_stopped (request_row sha256_hex dumps k i state reason now) t stopped,
          bound,
          same,
        )
        refl

  -- What a row that is a plan shares with it.
  is_same_plan_parts :
      (k : ℕ) (i : CiRequestInputs) (a : CiRequestState) (p : Option String) (row : CiRequestPlan)
      → is_same_plan sha256_hex dumps k i a p row ≡ true
      → (row.canonical_inputs ≡ canonical_inputs dumps i)
        × (same_state row.state a ≡ true)
        × (row.blocked_reason ≡ p)
  is_same_plan_parts k i a p row h =
      let (first, second) = both _ _ h in
      let (left, _) = both _ _ first in
      let (_, codes) = both _ _ left in
      let (_, right) = both _ _ second in
      let (_, last) = both _ _ right in
      let (state, reason) = both _ _ last in
      (
        same_codes_eq row.canonical_inputs (canonical_inputs dumps i) codes,
        state,
        (opt_eq-text row.blocked_reason p).0 reason,
      )

module _ (sha1_hex sha256_hex : List ℕ → String) (reformat : String → Option String)
    (dumps : Fields → List ℕ) (loads : List ℕ → Result Value) where
  -- A success found the descriptor, and placed the request for it; on a store with the same
  -- descriptors the request is placed again.
  create_ci_request_ok :
      (digest : String) (i : CiRequestInputs) (state : CiRequestState) (reason : Option String)
      (now : ℕ) (s : StateStore) {x : CiRequestPlan} {t : StateStore}
      → create_ci_request sha1_hex sha256_hex reformat dumps loads digest i state reason now s
        ≡ ok (x, t)
      → (d : MergeDescriptorRow) × (place_request sha256_hex dumps d.id i state reason now s
          ≡ ok (x, t))
        × ((later : ℕ) (u : StateStore)
            → u.descriptors ≡ s.descriptors
            → create_ci_request sha1_hex sha256_hex reformat dumps loads digest i state reason later
                u
              ≡ place_request sha256_hex dumps d.id i state reason later u)
  unfolding create_ci_request request_for
  create_ci_request_ok digest i state reason now s h =
      let (e1, h1) = require_ok (is_hex 64 digest) _ _ h in
      let (_, e2, h2) = >>=-eq-ok (fitting_reason state reason) _ h1 in
      let (_, e3, h3) =
        >>=-eq-ok (inputs_from_canonical_bytes reformat dumps loads (canonical_inputs dumps i)) _
          h2 in
      elim (Option-cases (find_row (is_digest digest) s.descriptors)) [
        | inl e ↦ absurd (ground (arith, rw e at h3))
        | inr (d, e) ↦
            let (c, e4, h4) =
              >>=-eq-ok (from_canonical_bytes sha1_hex dumps loads d.canonical_bytes) _
                (rw e at h3) in
            let (e5, h5) = require_ok (i.descriptor_digest =t digest) _ _ h4 in
            let (e6, h6) = require_ok (matches_descriptor i c) _ _ h5 in
            (
              d,
              h6,
              λ later u same.
                  rw (e1, e2, e3, ap (find_row (is_digest digest)) same ∙ e, e4, e5, e6) refl,
            )
      ]

  -- After a request was created, creating it again, at any time, gives the same plan and changes
  -- nothing; and any request with its identifier, for whatever descriptor and with whatever inputs,
  -- state and reason, raises in that store, or gives the same plan, changes nothing, and has the same
  -- canonical inputs, state and reason.
  pub create_ci_request_bound :
      (digest : String) (i : CiRequestInputs) (state : CiRequestState) (reason : Option String)
      (now later : ℕ) (s t : StateStore) (x : CiRequestPlan) (other : String) (j : CiRequestInputs)
      (another : CiRequestState) (cause : Option String)
      → create_ci_request sha1_hex sha256_hex reformat dumps loads digest i state reason now s
        ≡ ok (x, t)
      → j.request_id ≡ i.request_id
      → (create_ci_request sha1_hex sha256_hex reformat dumps loads digest i state reason later t
          ≡ ok (x, t))
        × (((raised : Error) × (create_ci_request sha1_hex sha256_hex reformat dumps loads other j
                  another cause later t
                ≡ err raised))
            ⊎ ((create_ci_request sha1_hex sha256_hex reformat dumps loads other j another cause
                    later t
                  ≡ ok (x, t))
                × (canonical_inputs dumps j ≡ canonical_inputs dumps i)
                × (another ≡ state)
                × (cause ≡ reason)))
  create_ci_request_bound digest i state reason now later s t x other j another cause h is_i =
      let (d, placed, repeat) = create_ci_request_ok digest i state reason now s h in
      let (bound, same, fits) =
        place_request-IsBound sha256_hex dumps d.id i state reason now s placed in
      let known = ap (λ n. find_row (is_request n) t.requests) is_i ∙ bound.0 in
      let (c1, s1, r1) = is_same_plan_parts sha256_hex dumps d.id i state reason x bound.1 in
      (
        repeat later t same.0
            ∙ place_request_again sha256_hex dumps d.id i state reason later t x bound fits,
        elim (Result-cases (
            create_ci_request sha1_hex sha256_hex reformat dumps loads other j another cause later
              t)) [
                | inl raises ↦ inl raises
                | inr (y, g) ↦
                    let (e, next, _) =
                      create_ci_request_ok other j another cause later t {x = y.0} {t = y.1} g in
                    let (is_x, is_t, plan) =
                      place_request_bound sha256_hex dumps e.id j another cause later t x known
                        next in
                    let (c2, s2, r2) =
                      is_same_plan_parts sha256_hex dumps e.id j another cause x plan in
                    inr (
                      g ∙ ap₂ (λ a b. ok (a, b)) is_x is_t,
                      sym c2 ∙ c1,
                      same_state_eq x.state state another s1 s2,
                      sym r2 ∙ r1,
                    )
              ],
      )

  pub create_ci_request-IsConsistent :
      (digest : String) (i : CiRequestInputs) (state : CiRequestState) (reason : Option String)
      (now : ℕ) (s : StateStore) (r : CiRequestPlan × StateStore)
      → create_ci_request sha1_hex sha256_hex reformat dumps loads digest i state reason now s
        ≡ ok r
      → IsConsistent s
      → IsConsistent r.1
  create_ci_request-IsConsistent digest i state reason now s r h c =
      let (d, placed, _) = create_ci_request_ok digest i state reason now s {x = r.0} {t = r.1} h in
      let (_, same, _) = place_request-IsBound sha256_hex dumps d.id i state reason now s placed in
      rw (same.1, same.2) c
