-- ===== src/Merge/Binds.antt =====
-- The object id of a merge commit is computed from bytes that determine the commit.
use Prim.Native.String.{◌++◌}
use dohwa_hermes_stack.Base.{
  ℕ, ◌≡◌, refl, sym, ap, ◌∙◌, true, false, ◌||◌, List, [], ◌∷◌, String, arith, ◌==◌, any, all,
  codes, str, Fields, ok, >>=-eq-ok, decimal_text,
}
use dohwa_hermes_stack.Approval.Checks.{is_hex, is_hex_code}
use dohwa_hermes_stack.Merge.{MergeDescriptor, from_mapping}
use dohwa_hermes_stack.Merge.Checks.{require_sha, require_text, require_identity}
use dohwa_hermes_stack.Merge.RoundTrip.{from_mapping-IsChecked}
use dohwa_hermes_stack.Merge.Commit.{append_codes, utf8, raw_commit_bytes}
use dohwa_hermes_stack.Merge.Commit.Codes.{
  codes-append, codes_injective, append_codes_cancel, append_codes_peel, append_codes_peel_two,
  is_free, utf8_injective,
}
use dohwa_hermes_stack.Merge.Commit.Decimals.{decimal_text-AreDigits, decimal_text_injective}
use dohwa_hermes_stack.Merge.Build.{commit_of}
use dohwa_hermes_stack.Merge.Build.Again.{arguments_of}

-- Neither an object id nor the parts of an identity have the code that ends them.
is_free_hex : (cs : List ℕ) → all is_hex_code cs ≡ true → is_free b'\n' cs ≡ true
is_free_hex [] h = refl
is_free_hex (c ∷ cs) h = let rest = is_free_hex cs (ground arith) in ground (arith, rest)

is_free_sha : (s : String) → require_sha (str s) ≡ ok s → is_free b'\n' (codes s) ≡ true
unfolding require_sha is_hex
is_free_sha s h =
    let hex : all is_hex_code (codes s) ≡ true = ground arith in is_free_hex (codes s) hex

is_free_brackets :
    (cs : List ℕ)
    → any (λ c. c == b'\n' || (c == b'<' || c == b'>')) cs ≡ false
    → (is_free b'<' cs ≡ true) × (is_free b'>' cs ≡ true)
is_free_brackets [] h = (refl, refl)
is_free_brackets (c ∷ cs) h =
    let (p, q) = is_free_brackets cs (ground arith) in (ground (arith, p), ground (arith, q))

is_free_identity :
    (s : String)
    → require_identity (str s) ≡ ok s
    → (is_free b'<' (codes s) ≡ true) × (is_free b'>' (codes s) ≡ true)
unfolding require_identity
is_free_identity s h =
    let (t, p, q) = >>=-eq-ok (require_text (str s)) _ h in
    let same : t ≡ s = ground arith in
    let none : any (λ c. c == b'\n' || (c == b'<' || c == b'>')) (codes s) ≡ false =
      ground (arith, same) in
    is_free_brackets (codes s) none

-- A line of the header that ends with an object id.
oid_peel :
    (s t : String) (x y : List ℕ)
    → require_sha (str s) ≡ ok s
    → require_sha (str t) ≡ ok t
    → append_codes (codes s) (b'\n' ∷ x) ≡ append_codes (codes t) (b'\n' ∷ y)
    → (s ≡ t) × (x ≡ y)
oid_peel s t x y p q h =
    let (same, rest) =
      append_codes_peel b'\n' (codes s) (codes t) x y (is_free_sha s p) (is_free_sha t q) h in
    (codes_injective s t same, rest)

-- A person and a time: `name <email> time `.
abbrev person_codes : String → String → ℕ → List ℕ → List ℕ
person_codes name email time x = append_codes (codes name) (
    b' '
    ∷ b'<'
    ∷ append_codes (codes email)
        (b'>' ∷ b' ' ∷ append_codes (codes (decimal_text time)) (b' ' ∷ x)))

person_peel :
    (n e : String) (i : ℕ) (m f : String) (j : ℕ) (x y : List ℕ)
    → require_identity (str n) ≡ ok n
    → require_identity (str e) ≡ ok e
    → require_identity (str m) ≡ ok m
    → require_identity (str f) ≡ ok f
    → person_codes n e i x ≡ person_codes m f j y
    → (n ≡ m) × (e ≡ f) × (i ≡ j) × (x ≡ y)
person_peel n e i m f j x y pn pe pm pf h =
    let (name, h1) =
      append_codes_peel_two b'<' b' ' (codes n) (codes m) _ _ refl (is_free_identity n pn).0
        (is_free_identity m pm).0 h in
    let (email, h2) =
      append_codes_peel b'>' (codes e) (codes f) _ _ (is_free_identity e pe).1
        (is_free_identity f pf).1 h1 in
    let h3 = append_codes_cancel (b' ' ∷ []) _ _ h2 in
    let (time, rest) =
      append_codes_peel b' ' (codes (decimal_text i)) (codes (decimal_text j)) x y
        (decimal_text-AreDigits i).1 (decimal_text-AreDigits j).1 h3 in
    (codes_injective n m name, codes_injective e f email, decimal_text_injective i j time, rest)

text_step : (s t : String) {ds : List ℕ} → codes t ≡ ds → codes (s ++ t) ≡ append_codes (codes s) ds
text_step s t h = codes-append s t ∙ ap (append_codes (codes s)) h

person_step :
    (name email : String) (time : ℕ) (t : String) {ds : List ℕ}
    → codes t ≡ b' ' ∷ ds
    → codes (name ++ (" <" ++ (email ++ ("> " ++ (decimal_text time ++ t)))))
      ≡ person_codes name email time ds
person_step name email time t h =
    text_step name _
      (text_step " <" _ (text_step email _ (text_step "> " _ (text_step (decimal_text time) t h))))

-- The codes of a commit, line by line.
abbrev commit_codes : MergeDescriptor → List ℕ
commit_codes d = append_codes (codes "tree ") (
    append_codes (codes d.tree_oid) (
      append_codes (codes "\nparent ") (
        append_codes (codes d.base_oid) (
          append_codes (codes "\nparent ") (
            append_codes (codes d.head_oid) (
              append_codes (codes "\nauthor ") (
                person_codes d.author_name d.author_email d.timestamp (
                  append_codes (codes "+0000\ncommitter ") (
                    person_codes d.committer_name d.committer_email d.timestamp
                      (append_codes (codes "+0000\n\n") (codes d.message)))))))))))

commit_of-utf8 : (d : MergeDescriptor) → commit_of (arguments_of d) ≡ utf8 (commit_codes d)
unfolding commit_of raw_commit_bytes
commit_of-utf8 d =
    let last = text_step " +0000\n\n" d.message refl in
    let committer =
      text_step " +0000\ncommitter " _
        (person_step d.committer_name d.committer_email d.timestamp _ last) in
    let author =
      text_step "\nauthor " _ (person_step d.author_name d.author_email d.timestamp _ committer) in
    ap utf8 (
      text_step "tree " _ (
        text_step d.tree_oid _ (
          text_step "\nparent " _
            (text_step d.base_oid _ (text_step "\nparent " _ (text_step d.head_oid _ author))))))

module _ (sha1_hex : List ℕ → String) where
  -- Two descriptors that are read from mappings have the same commit bytes only if they agree on
  -- the tree, on both parents in order, on the author and the committer, on the time and on the
  -- message.
  pub commit_of_injective :
      (value other : Fields) (d e : MergeDescriptor)
      → from_mapping sha1_hex value ≡ ok d
      → from_mapping sha1_hex other ≡ ok e
      → commit_of (arguments_of d) ≡ commit_of (arguments_of e)
      → (d.tree_oid ≡ e.tree_oid)
        × (d.base_oid ≡ e.base_oid)
        × (d.head_oid ≡ e.head_oid)
        × (d.author_name ≡ e.author_name)
        × (d.author_email ≡ e.author_email)
        × (d.committer_name ≡ e.committer_name)
        × (d.committer_email ≡ e.committer_email)
        × (d.timestamp ≡ e.timestamp)
        × (d.message ≡ e.message)
  commit_of_injective value other d e p q h =
      let (_, _, (bd, hd, _, td, _, _), _, _, (nd, md, cd, fd), _, _) =
        from_mapping-IsChecked sha1_hex value p in
      let (_, _, (be, he, _, te, _, _), _, _, (ne, me, ce, fe), _, _) =
        from_mapping-IsChecked sha1_hex other q in
      let same =
        utf8_injective (commit_codes d) (commit_codes e)
          (sym (commit_of-utf8 d) ∙ (h ∙ commit_of-utf8 e)) in
      let (tree, h1) =
        oid_peel d.tree_oid e.tree_oid _ _ td te (append_codes_cancel (codes "tree ") _ _ same) in
      let (base, h2) =
        oid_peel d.base_oid e.base_oid _ _ bd be (append_codes_cancel (codes "parent ") _ _ h1) in
      let (head, h3) =
        oid_peel d.head_oid e.head_oid _ _ hd he (append_codes_cancel (codes "parent ") _ _ h2) in
      let (name, email, time, h4) =
        person_peel d.author_name d.author_email d.timestamp e.author_name e.author_email
          e.timestamp _ _ nd md ne me (append_codes_cancel (codes "author ") _ _ h3) in
      let (committer, address, _, h5) =
        person_peel d.committer_name d.committer_email d.timestamp e.committer_name
          e.committer_email e.timestamp _ _ cd fd ce fe
          (append_codes_cancel (codes "+0000\ncommitter ") _ _ h4) in
      let message = append_codes_cancel (codes "+0000\n\n") _ _ h5 in
      (
        tree,
        base,
        head,
        name,
        email,
        committer,
        address,
        time,
        codes_injective d.message e.message message,
      )
