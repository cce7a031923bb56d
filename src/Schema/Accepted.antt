-- ===== src/Schema/Accepted.antt =====
-- What a review that is accepted satisfies.
use dohwa_hermes_stack.Base.{
  ℕ, ◌≤◌, ◌≡◌, ◌≢◌, ◌⊎◌, refl, sym, ap, subst, ◌∙◌, Bool, true, false, not, ◌&&◌, ◌||◌, Option,
  none, some, List, [], ◌∷◌, ◌++◌, String, arith, eq_iff, ltb, ◌==◌, ◌=t◌, any, length, All, ℤ, pos,
  negsuc, Value, null, get, codes, is_object, text_length, Result, ok, require_ok, refuse_ok,
  >>=-eq-ok, if◌then◌else◌, inl, inr,
}
use dohwa_hermes_stack.Approval.Checks.{is_hex}
use dohwa_hermes_stack.Decision.Ci.{text_or_empty, is_list, list_of}
use dohwa_hermes_stack.Schema.{
  ReviewDecision, Finding, ReviewResult, decision_of, severity_of, dots_after, is_two, climbs,
  is_relative_path, is_confidence, positive_line, is_blocking, is_human, is_pass, each_item,
  bounded, line_of, finding, test_result, check_result, review_result,
}

each_item-All {ℓ κ} :
    {A : Type ℓ} (P : A → Type κ) (f : Value → Result A)
    → ((v : Value) (a : A) → f v ≡ ok a → P a)
    → (vs : List Value) (xs : List A) → each_item f vs ≡ ok xs
    → All P xs × (length xs ≡ length vs)
unfolding each_item
each_item-All P f h [] xs e =
    let same : [] ≡ xs = ground arith in subst (λ x. All P x × (length x ≡ 0)) same (tt, refl)
each_item-All P f h (v ∷ vs) xs e =
    let (a, p, e1) = >>=-eq-ok (f v) _ e in
    let (rest, q, e2) = >>=-eq-ok (each_item f vs) _ e1 in
    let same : a ∷ rest ≡ xs = ground arith in
    let (all_rest, size) = each_item-All P f h vs rest q in
    subst (λ x. All P x × (length x ≡ length (v ∷ vs))) same
      ((h v a p, all_rest), omega (arith, size))

climbs_here :
    (d : Option ℕ) (xs ys : List ℕ) → climbs d (xs ++ b'/' ∷ b'.' ∷ b'.' ∷ b'/' ∷ ys) ≡ true
climbs_here d [] ys = ground arith
climbs_here d (a ∷ xs) ys =
    ground (arith, climbs_here (some 0) xs ys, climbs_here (dots_after d a) xs ys)

climbs_end : (d : Option ℕ) (cs : List ℕ) → climbs d (cs ++ b'/' ∷ []) ≡ climbs d cs
climbs_end d [] = ground arith
climbs_end d (c ∷ cs) =
    ap (λ x. if c == b'/' then is_two d || x else climbs (dots_after d c) (cs ++ b'/' ∷ []))
      (climbs_end (some 0) cs)
    ∙ ap (λ x. if c == b'/' then is_two d || climbs (some 0) cs else x)
        (climbs_end (dots_after d c) cs)

-- No segment of a path between slashes, or at its ends, is `..`.
abbrev pub StaysInside : String → Type 0
StaysInside path =
    (xs ys : List ℕ) → (b'/' ∷ codes path ++ b'/' ∷ []) ≢ (xs ++ b'/' ∷ b'.' ∷ b'.' ∷ b'/' ∷ ys)

is_relative_path-StaysInside : (path : String) → is_relative_path path ≡ true → StaysInside path
unfolding is_relative_path
is_relative_path-StaysInside path h xs ys e =
    let closed : climbs none (b'/' ∷ codes path ++ b'/' ∷ []) ≡ climbs (some 0) (codes path) =
      climbs_end (some 0) (codes path) in
    let found = ap (climbs none) e ∙ climbs_here none xs ys in ground arith

module _ (render : Value → String) (strip lower : String → String) (to_int : Value → Result ℤ) where
  bounded_size :
      (v : Value) (maximum : ℕ) (allow_empty : Bool) (text : String)
      → bounded render strip lower to_int v maximum allow_empty ≡ ok text
      → text_length text ≤ maximum
  unfolding bounded
  bounded_size v maximum allow_empty text h =
      let (_, h1) = refuse_ok (strip (text_or_empty render v) =t "" && not allow_empty) _ _ h in
      let (size, h2) =
        refuse_ok (ltb maximum (text_length (strip (text_or_empty render v)))) _ _ h1 in
      ground arith

  positive_line_pos : (z : ℤ) (l : Option ℕ) → positive_line z ≡ ok l → l ≢ some 0
  positive_line_pos (pos i) l p e = ground arith
  positive_line_pos (negsuc i) l p e = cc

  line_of_positive :
      (v : Value) (l : Option ℕ) → line_of render strip lower to_int v ≡ ok l → l ≢ some 0
  unfolding line_of
  line_of_positive null l h e = absurd (ground arith)
  line_of_positive v l h e =
      let (z, _, p) = >>=-eq-ok (to_int v) positive_line h in positive_line_pos z l p e

  -- What an accepted finding satisfies.
  abbrev pub IsFine : Finding → Type 0
  IsFine f =
      StaysInside f.path
      × (f.line ≢ some 0)
      × (text_length f.title ≤ 200)
      × (text_length f.evidence ≤ 2_000)
      × (text_length f.recommendation ≤ 2_000)

  finding-IsFine : (v : Value) (f : Finding) → finding render strip lower to_int v ≡ ok f → IsFine f
  unfolding finding
  finding-IsFine v f h =
      let (_, h1) = require_ok (is_object v) _ _ h in
      let (inside, h2) =
        require_ok (is_relative_path (strip (text_or_empty render (get "path" v)))) _ _ h1 in
      let (l, is_line, h3) = >>=-eq-ok (line_of render strip lower to_int (get "line" v)) _ h2 in
      let (s, _, h4) = >>=-eq-ok (severity_of (text_or_empty render (get "severity" v))) _ h3 in
      let (t, is_title, h5) =
        >>=-eq-ok (bounded render strip lower to_int (get "title" v) 200 false) _ h4 in
      let (e, is_evidence, h6) =
        >>=-eq-ok (bounded render strip lower to_int (get "evidence" v) 2_000 false) _ h5 in
      let (r, is_recommendation, h7) =
        >>=-eq-ok (bounded render strip lower to_int (get "recommendation" v) 2_000 false) _ h6 in
      let same : (record {
        severity = s;
        path = strip (text_or_empty render (get "path" v));
        line = l;
        title = t;
        evidence = e;
        recommendation = r;
      })
          ≡ f =
        ground arith in
      subst IsFine same (
        is_relative_path-StaysInside (strip (text_or_empty render (get "path" v))) inside,
        line_of_positive (get "line" v) l is_line,
        bounded_size (get "title" v) 200 false t is_title,
        bounded_size (get "evidence" v) 2_000 false e is_evidence,
        bounded_size (get "recommendation" v) 2_000 false r is_recommendation,
      )

  -- What an accepted review satisfies.
  abbrev pub IsCoherent : ReviewResult → Type 0
  IsCoherent r =
      ((r.confidence ≢ "low") ⊎ (r.decision ≡ ReviewDecision.human_review))
      × ((r.decision ≢ ReviewDecision.pass) ⊎ (any is_blocking r.findings ≡ false))
      × (length r.findings ≤ 100)
      × (length r.tests ≤ 50)
      × (is_hex 40 r.reviewed_head_sha ≡ true)
      × (text_length r.summary ≤ 4_000)
      × All IsFine r.findings

  same_review : (q r : ReviewResult) → ok q ≡ ok r → q ≡ r
  same_review q r h = ground arith

  low_goes_to_human :
      (confidence : String) (d : ReviewDecision)
      → (confidence =t "low" && not (is_human d)) ≡ false
      → (confidence ≢ "low") ⊎ (d ≡ ReviewDecision.human_review)
  low_goes_to_human confidence ReviewDecision.human_review h = inr refl
  low_goes_to_human confidence ReviewDecision.pass h = inl (λ e. grind (arith, eq_iff))
  low_goes_to_human confidence ReviewDecision.changes_required h = inl (λ e. grind (arith, eq_iff))

  pass_is_clean :
      (fs : List Finding) (d : ReviewDecision)
      → (any is_blocking fs && is_pass d) ≡ false
      → (d ≢ ReviewDecision.pass) ⊎ (any is_blocking fs ≡ false)
  pass_is_clean fs ReviewDecision.pass h = inr (ground arith)
  pass_is_clean fs ReviewDecision.changes_required h = inl (λ e. cc)
  pass_is_clean fs ReviewDecision.human_review h = inl (λ e. cc)

  within_limits : (m n : ℕ) → (ltb 100 m || ltb 50 n) ≡ false → (m ≤ 100) × (n ≤ 50)
  within_limits m n h = (ground arith, ground arith)

  -- A review that is accepted is coherent: low confidence goes to a person, a pass has findings of
  -- severity P3 only, there are at most 100 findings and 50 tests, the head is a lowercase SHA-1,
  -- the summary has at most 4,000 characters, and of every finding the path does not climb out of
  -- the repository, the line is not 0 and every text is within its limit.
  pub review_result-IsCoherent :
      (v : Value) (r : ReviewResult)
      → review_result render strip lower to_int v ≡ ok r
      → IsCoherent r
  unfolding review_result check_result
  review_result-IsCoherent v r h =
      let sha = lower (strip (text_or_empty render (get "reviewed_head_sha" v))) in
      let confidence = lower (text_or_empty render (get "confidence" v)) in
      let (_, h1) = require_ok (is_object v) _ _ h in
      let (hex, h2) = require_ok (is_hex 40 sha) _ _ h1 in
      let (_, h3) = require_ok (is_confidence confidence) _ _ h2 in
      let (_, h4) = require_ok (is_list (get "findings" v) && is_list (get "tests" v)) _ _ h3 in
      let (few, h5) =
        refuse_ok
          (ltb 100 (length (list_of (get "findings" v)))
            || ltb 50 (length (list_of (get "tests" v))))
          _ _ h4 in
      let (d, _, h6) = >>=-eq-ok (decision_of (text_or_empty render (get "decision" v))) _ h5 in
      let (s, is_summary, h7) =
        >>=-eq-ok (bounded render strip lower to_int (get "summary" v) 4_000 false) _ h6 in
      let (fs, are_findings, h8) =
        >>=-eq-ok (each_item (finding render strip lower to_int) (list_of (get "findings" v))) _
          h7 in
      let (ts, are_tests, h9) =
        >>=-eq-ok (each_item (test_result render strip lower to_int) (list_of (get "tests" v))) _
          h8 in
      let (low, h10) = refuse_ok (confidence =t "low" && not (is_human d)) _ _ h9 in
      let (clean, h11) = refuse_ok (any is_blocking fs && is_pass d) _ _ h10 in
      let (fine, finding_count) =
        each_item-All IsFine (finding render strip lower to_int) finding-IsFine
          (list_of (get "findings" v)) fs are_findings in
      let (_, test_count) =
        each_item-All (λ _. Unit {0}) (test_result render strip lower to_int) (λ _ _ _. tt)
          (list_of (get "tests" v)) ts are_tests in
      let limits =
        within_limits (length (list_of (get "findings" v))) (length (list_of (get "tests" v)))
          few in
      let same : ok (record {
        decision = d;
        reviewed_head_sha = sha;
        summary = s;
        findings = fs;
        tests = ts;
        confidence = confidence;
      })
          ≡ ok r =
        h11 in
      subst IsCoherent (same_review _ r same) (
        low_goes_to_human confidence d low,
        pass_is_clean fs d clean,
        subst (λ n. n ≤ 100) (sym finding_count) limits.0,
        subst (λ n. n ≤ 50) (sym test_count) limits.1,
        hex,
        bounded_size (get "summary" v) 4_000 false s is_summary,
        fine,
      )
