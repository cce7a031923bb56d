-- ===== src/Examples/Gate.antt =====
-- Check runs and reviews of one pull request.
use dohwa_hermes_stack.Base.{
  ℕ, ◌≡◌, refl, ◌≢◌, inl, true, false, List, [], ◌∷◌, String, arith, eq_iff, ◌=t◌, All, pos, Value,
  str, int, array, object, nil, Fields, end, field, ok,
}
use dohwa_hermes_stack.Decision.Ci.{
  Some, IsQuiet, Succeeds, StatusesPass, by_name, is_quiet, quiet_checks, is_successful,
  is_satisfied, statuses_pass, ci_satisfies_policy, ci_satisfies_policy_sound,
  ci_satisfies_policy_complete,
}
use dohwa_hermes_stack.Decision.Reviews.{
  Vote, votes_of, has_blocking_human_review, has_blocking_human_review_decisive,
}

abbrev render : Value → String
render v = ""

abbrev kept : String → String
kept s = s

abbrev run_of : String → String → Fields
run_of name conclusion =
    field "name" (str name)
      (field "status" (str "completed") (field "conclusion" (str conclusion) end))

abbrev checks : List Fields
checks = run_of "lint" "neutral" ∷ run_of "tests" "success" ∷ []

abbrev no_statuses : Value
no_statuses = object (field "statuses" (array nil) end)

abbrev required : List String
required = "tests" ∷ []

ci_satisfies_policy_sound_example :
    (required ≢ [])
    × All IsQuiet checks
    × All (λ name. Some (Succeeds render name) checks) required
    × StatusesPass no_statuses
unfolding ci_satisfies_policy by_name quiet_checks is_quiet is_satisfied statuses_pass
ci_satisfies_policy_sound_example =
    ci_satisfies_policy_sound render required checks no_statuses refl

ci_satisfies_policy_complete_example :
    ci_satisfies_policy render required (run_of "tests" "success" ∷ []) no_statuses ≡ ok true
unfolding is_successful statuses_pass
ci_satisfies_policy_complete_example =
    ci_satisfies_policy_complete render required (run_of "tests" "success" ∷ []) no_statuses
      (λ e. cc) ((refl, refl), tt) (inl (refl, (refl, refl)), tt) refl

abbrev review_of : String → ℕ → String → Fields
review_of login id state =
    field "user" (object (field "login" (str login) end))
      (field "id" (int (pos id)) (field "state" (str state) end))

abbrev vote_of : String → ℕ → String → Vote
vote_of login order state = record { login = login; order = pos order; state = state }

abbrev reviews : List Fields
reviews =
    review_of "ana" 4 "APPROVED"
    ∷ review_of "ana" 9 "CHANGES_REQUESTED"
    ∷ review_of "ben" 11 "APPROVED"
    ∷ []

differ : (a b : String) → (a =t b) ≡ false → a ≢ b
differ a b h e = ground (arith, eq_iff a b)

has_blocking_human_review_decisive_example :
    has_blocking_human_review render kept kept "app" reviews ≡ ok true
unfolding votes_of
has_blocking_human_review_decisive_example =
    has_blocking_human_review_decisive render kept kept "app" reviews
      (vote_of "ana" 4 "APPROVED" ∷ []) (vote_of "ben" 11 "APPROVED" ∷ [])
      (vote_of "ana" 9 "CHANGES_REQUESTED") refl (λ e. refl, tt)
      (λ e. absurd (differ "ben" "ana" refl e), tt) refl
