-- ===== src/Merge/Canonical/RoundTrip.antt =====
-- A merge descriptor is read back from its canonical bytes, and only from them.
use dohwa_hermes_stack.Base.{
  ℕ, ◌≡◌, refl, sym, ap, subst, true, List, [], ◌∷◌, String, arith, Value, object, Fields,
  get_field, is_literal, Result, ok, >>=-eq-ok, require_ok,
}
use dohwa_hermes_stack.Merge.{
  MergeDescriptor, attributes_of, from_mapping, attributes, to_mapping, are_parents,
  descriptor_fields, post_init,
}
use dohwa_hermes_stack.Merge.Checks.{same_codes, ends_with, require_exact_fields}
use dohwa_hermes_stack.Merge.Commit.{append_codes}
use dohwa_hermes_stack.Merge.RoundTrip.{
  IsChecked, from_mapping-IsChecked, post_init_again, are_parents_same,
}
use dohwa_hermes_stack.Merge.Canonical.{
  sort_fields, has_unique_names, canonical_json, read_mapping, from_canonical_bytes,
}

pub same_codes_refl : (cs : List ℕ) → same_codes cs cs ≡ true
same_codes_refl [] = refl
same_codes_refl (c ∷ cs) = ground (arith, same_codes_refl cs)

pub same_codes_eq : (cs ds : List ℕ) → same_codes cs ds ≡ true → cs ≡ ds
same_codes_eq [] [] h = refl
same_codes_eq [] (d ∷ ds) h = absurd (cc)
same_codes_eq (c ∷ cs) [] h = absurd (cc)
same_codes_eq (c ∷ cs) (d ∷ ds) h =
    let here : c ≡ d = ground arith in
    let rest = same_codes_eq cs ds (ground arith) in rw (here, rest) refl

-- What ends in a line feed.
ends_with-append_codes :
    (c : ℕ) (cs : List ℕ) → ends_with (c ∷ []) (append_codes cs (c ∷ [])) ≡ true
unfolding ends_with
ends_with-append_codes c [] = ground arith
ends_with-append_codes c (d ∷ cs) = ground (arith, ends_with-append_codes c cs)

module _ (d : MergeDescriptor) where
  has_unique_names-to_mapping : has_unique_names (object (sort_fields (to_mapping d))) ≡ true
  unfolding has_unique_names sort_fields to_mapping
  has_unique_names-to_mapping = refl

  attributes_of-sort_fields : attributes_of (sort_fields (to_mapping d)) ≡ attributes d
  unfolding attributes_of sort_fields to_mapping
  attributes_of-sort_fields = refl

  exact_fields_sorted : require_exact_fields (sort_fields (to_mapping d)) descriptor_fields ≡ ok tt
  unfolding require_exact_fields sort_fields to_mapping
  exact_fields_sorted = refl

  schema_sorted :
      is_literal "merge-descriptor/v1" (get_field "schema" (sort_fields (to_mapping d))) ≡ true
  unfolding to_mapping sort_fields get_field
  schema_sorted = refl

  are_parents_sorted :
      are_parents
        (get_field "base_oid" (sort_fields (to_mapping d)))
        (get_field "head_oid" (sort_fields (to_mapping d)))
        (get_field "parents" (sort_fields (to_mapping d)))
      ≡ true
  unfolding to_mapping sort_fields get_field
  are_parents_sorted = are_parents_same d.base_oid d.head_oid

module _ (dumps : Fields → List ℕ) (loads : List ℕ → Result Value) where
  -- What `loads` reads of the canonical bytes of a mapping without repeated names is its mapping.
  pub read_mapping_written :
      (f : Fields)
      → loads (canonical_json dumps f) ≡ ok (object (sort_fields f))
      → has_unique_names (object (sort_fields f)) ≡ true
      → read_mapping loads (canonical_json dumps f) ≡ ok (sort_fields f)
  unfolding read_mapping canonical_json
  read_mapping_written f h unique =
      let ends = ends_with-append_codes 10 (dumps (sort_fields f)) in
      ground (arith, h, ends, unique)

module _ (sha1_hex : List ℕ → String) (dumps : Fields → List ℕ)
    (loads : List ℕ → Result Value) where
  from_mapping-sort_fields :
      (d : MergeDescriptor)
      → IsChecked sha1_hex d
      → from_mapping sha1_hex (sort_fields (to_mapping d)) ≡ ok d
  unfolding from_mapping
  from_mapping-sort_fields d c =
      let e1 = exact_fields_sorted d in
      let e2 = schema_sorted d in
      let e3 = are_parents_sorted d in
      let e4 = ap (post_init sha1_hex) (attributes_of-sort_fields d) in
      ground (arith, e1, e2, e3, e4, post_init_again sha1_hex d c)

  -- A descriptor that was read from some mapping is read again from its own canonical bytes, where
  -- JSON reads what it wrote of the sorted mapping.
  pub from_canonical_bytes-canonical_json :
      (value : Fields) (d : MergeDescriptor)
      → from_mapping sha1_hex value ≡ ok d
      → loads (canonical_json dumps (to_mapping d)) ≡ ok (object (sort_fields (to_mapping d)))
      → from_canonical_bytes sha1_hex dumps loads (canonical_json dumps (to_mapping d)) ≡ ok d
  unfolding from_canonical_bytes
  from_canonical_bytes-canonical_json value d h written =
      let e1 =
        read_mapping_written dumps loads (to_mapping d) written (has_unique_names-to_mapping d) in
      let e2 = from_mapping-sort_fields d (from_mapping-IsChecked sha1_hex value h) in
      let e3 = same_codes_refl (canonical_json dumps (to_mapping d)) in rw (e1, e2, e3) refl

  -- Only the canonical bytes of a descriptor are read to it.
  pub from_canonical_bytes_canonical :
      (bytes : List ℕ) (d : MergeDescriptor)
      → from_canonical_bytes sha1_hex dumps loads bytes ≡ ok d
      → IsChecked sha1_hex d × (bytes ≡ canonical_json dumps (to_mapping d))
  unfolding from_canonical_bytes
  from_canonical_bytes_canonical bytes d h =
      let (f, _, h1) = >>=-eq-ok (read_mapping loads bytes) _ h in
      let (e, p, h2) = >>=-eq-ok (from_mapping sha1_hex f) _ h1 in
      let (same, h3) =
        require_ok (same_codes (canonical_json dumps (to_mapping e)) bytes) _ (ok e) h2 in
      let is_d : e ≡ d = ground arith in
      (
        subst (IsChecked sha1_hex) is_d (from_mapping-IsChecked sha1_hex f p),
        subst (λ x. bytes ≡ canonical_json dumps (to_mapping x)) is_d
            (sym (same_codes_eq (canonical_json dumps (to_mapping e)) bytes same)),
      )
