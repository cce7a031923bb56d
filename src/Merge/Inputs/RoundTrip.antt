-- ===== src/Merge/Inputs/RoundTrip.antt =====
-- The inputs of a run are read back from their canonical bytes.
use dohwa_hermes_stack.Base.{
  ℕ, ◌≡◌, refl, ap, subst, true, List, String, arith, Option, Value, object, Fields, get_field,
  is_literal, Result, ok, >>=-eq-ok, require_ok,
}
use dohwa_hermes_stack.Merge.Checks.{require_exact_fields}
use dohwa_hermes_stack.Merge.Canonical.{sort_fields, has_unique_names, canonical_json}
use dohwa_hermes_stack.Merge.Canonical.RoundTrip.{same_codes_refl, read_mapping_written}
use dohwa_hermes_stack.Merge.Inputs.{
  input_fields, InputAttributes, CiRequestInputs, require_context, require_subject,
  require_workflow, require_sender, assemble_inputs, post_init_inputs, input_attributes_of,
  inputs_from_mapping, inputs_to_mapping, inputs_from_canonical_bytes,
}
use dohwa_hermes_stack.Merge.Inputs.Checked.{
  IsContext, IsSubject, IsWorkflow, IsSender, require_context-IsContext, require_subject-IsSubject,
  require_workflow-IsWorkflow, require_sender-IsSender, input_attributes, context_of, context_again,
  subject_of, subject_again, workflow_of, workflow_again, dispatch_of, dispatch_again,
}

module _ (i : CiRequestInputs) where
  has_unique_names_inputs : has_unique_names (object (sort_fields (inputs_to_mapping i))) ≡ true
  unfolding has_unique_names sort_fields inputs_to_mapping
  has_unique_names_inputs = refl

  attributes_sorted_inputs :
      input_attributes_of (sort_fields (inputs_to_mapping i)) ≡ input_attributes i
  unfolding input_attributes_of sort_fields inputs_to_mapping
  attributes_sorted_inputs = refl

  exact_fields_sorted_inputs :
      require_exact_fields (sort_fields (inputs_to_mapping i)) input_fields ≡ ok tt
  unfolding require_exact_fields sort_fields inputs_to_mapping
  exact_fields_sorted_inputs = refl

  schema_sorted_inputs :
      is_literal "targeted-ci-input/v1" (get_field "schema" (sort_fields (inputs_to_mapping i)))
      ≡ true
  unfolding inputs_to_mapping sort_fields get_field
  schema_sorted_inputs = refl

module _ (reformat : String → Option String) where
  -- What the inputs of every run satisfy.
  abbrev pub IsCheckedInputs : CiRequestInputs → Type 0
  IsCheckedInputs i =
      IsContext (context_of i)
      × IsSubject (subject_of i)
      × IsWorkflow (workflow_of i)
      × IsSender reformat (dispatch_of i)

  post_init_inputs-IsCheckedInputs :
      (a : InputAttributes) {i : CiRequestInputs}
      → post_init_inputs reformat a ≡ ok i
      → IsCheckedInputs i
  unfolding post_init_inputs
  post_init_inputs-IsCheckedInputs a {i} h =
      let (c, e1, h1) = >>=-eq-ok (require_context a) _ h in
      let (s, e2, h2) = >>=-eq-ok (require_subject a) _ h1 in
      let (w, e3, h3) = >>=-eq-ok (require_workflow a) _ h2 in
      let (f, e4, h4) = >>=-eq-ok (require_sender reformat a) _ h3 in
      let same : assemble_inputs c s w f ≡ i = ground arith in
      subst IsCheckedInputs same (
        require_context-IsContext a e1,
        require_subject-IsSubject a e2,
        require_workflow-IsWorkflow a e3,
        require_sender-IsSender reformat a e4,
      )

  post_init_inputs_again :
      (i : CiRequestInputs)
      → IsCheckedInputs i
      → post_init_inputs reformat (input_attributes i) ≡ ok i
  unfolding post_init_inputs
  post_init_inputs_again i (c, s, w, f) =
      rw (context_again i c, subject_again i s, workflow_again i w, dispatch_again reformat i f)
        refl

  inputs_from_mapping-IsCheckedInputs :
      (value : Fields) {i : CiRequestInputs}
      → inputs_from_mapping reformat value ≡ ok i
      → IsCheckedInputs i
  unfolding inputs_from_mapping
  inputs_from_mapping-IsCheckedInputs value h =
      let (_, _, h1) = >>=-eq-ok (require_exact_fields value input_fields) _ h in
      let (_, h2) =
        require_ok (is_literal "targeted-ci-input/v1" (get_field "schema" value)) _ _ h1 in
      post_init_inputs-IsCheckedInputs (input_attributes_of value) h2

  inputs_from_mapping_again :
      (i : CiRequestInputs)
      → IsCheckedInputs i
      → inputs_from_mapping reformat (sort_fields (inputs_to_mapping i)) ≡ ok i
  unfolding inputs_from_mapping
  inputs_from_mapping_again i c =
      let e1 = exact_fields_sorted_inputs i in
      let e2 = schema_sorted_inputs i in
      let e3 = ap (post_init_inputs reformat) (attributes_sorted_inputs i) in
      ground (arith, e1, e2, e3, post_init_inputs_again i c)

module _ (reformat : String → Option String) (dumps : Fields → List ℕ)
    (loads : List ℕ → Result Value) where
  -- The inputs of a run that were read from some mapping are read again from their own canonical
  -- bytes, where JSON reads what it wrote of the sorted mapping.
  pub inputs_from_canonical_bytes-canonical_json :
      (value : Fields) (i : CiRequestInputs)
      → inputs_from_mapping reformat value ≡ ok i
      → loads (canonical_json dumps (inputs_to_mapping i))
        ≡ ok (object (sort_fields (inputs_to_mapping i)))
      → inputs_from_canonical_bytes reformat dumps loads
          (canonical_json dumps (inputs_to_mapping i))
        ≡ ok i
  unfolding inputs_from_canonical_bytes
  inputs_from_canonical_bytes-canonical_json value i h written =
      let e1 =
        read_mapping_written dumps loads (inputs_to_mapping i) written
          (has_unique_names_inputs i) in
      let e2 =
        inputs_from_mapping_again reformat i
          (inputs_from_mapping-IsCheckedInputs reformat value h) in
      let e3 = same_codes_refl (canonical_json dumps (inputs_to_mapping i)) in rw (e1, e2, e3) refl
