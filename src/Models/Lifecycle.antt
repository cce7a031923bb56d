-- ===== src/Models/Lifecycle.antt =====
-- What the table of transitions of reviewer/models.py permits over a whole life of a job.
use dohwa_hermes_stack.Base.{
  ◌≡◌, refl, ◌≢◌, ◌≤◌, Bool, true, false, List, [], ◌∷◌, arith, any, length, Result, ok, ◌>>◌,
  >>=-eq-ok, Bool-cases, inl, inr,
}
use dohwa_hermes_stack.Models.{
  ReviewState, queued, reviewing, waiting_ci, ready_to_merge, merging, merged, obsolete, closed,
  state_in, ◌=s◌, active_states, validate_transition,
}

-- A job that is moved to each state of a list in turn.
unfoldable pub follow : ReviewState → List ReviewState → Result ReviewState
follow s [] = ok s
follow s (t ∷ ts) = do validate_transition s t; follow t ts

-- A set of states that is entered only through one of them, the gate.
module _ (inside : ReviewState → Bool) (gate : ReviewState)
    (enter : (s t : ReviewState)
      → validate_transition s t ≡ ok tt
      → inside s ≡ false
      → (t =s gate) ≡ false
      → inside t ≡ false) where
  follow_gate :
      (s t : ReviewState) (ts : List ReviewState)
      → inside s ≡ false
      → follow s ts ≡ ok t
      → inside t ≡ true
      → any (λ u. u =s gate) ts ≡ true
  unfolding follow
  follow_gate s t [] out h i = ground arith
  follow_gate s t (u ∷ ts) out h i = elim (Bool-cases (u =s gate)) [
    | inl e ↦ rw e refl
    | inr n ↦
        let (_, valid, rest) = >>=-eq-ok (validate_transition s u) (λ _. follow u ts) h in
        rw n (follow_gate u t ts (enter s u valid out n) rest i)
  ]

-- The states that a job has only after a review has begun, and those after it has passed.
abbrev pub late_states : List ReviewState
late_states = reviewing ∷ waiting_ci ∷ ready_to_merge ∷ merging ∷ []

abbrev pub merge_states : List ReviewState
merge_states = ready_to_merge ∷ merging ∷ []

enter_late :
    (s t : ReviewState)
    → validate_transition s t ≡ ok tt
    → state_in s late_states ≡ false
    → (t =s reviewing) ≡ false
    → state_in t late_states ≡ false
unfolding validate_transition
enter_late s t h e n = ground arith

enter_merge :
    (s t : ReviewState)
    → validate_transition s t ≡ ok tt
    → state_in s merge_states ≡ false
    → (t =s ready_to_merge) ≡ false
    → state_in t merge_states ≡ false
unfolding validate_transition
enter_merge s t h e n = ground arith

-- From a state in which no review runs or has passed, every list of valid transitions that ends in
-- MERGING contains REVIEWING and READY_TO_MERGE.
pub follow-merging :
    (s : ReviewState) (ts : List ReviewState)
    → state_in s late_states ≡ false
    → follow s ts ≡ ok merging
    → (any (λ u. u =s reviewing) ts ≡ true) × (any (λ u. u =s ready_to_merge) ts ≡ true)
follow-merging s ts out h = (
  follow_gate (λ u. state_in u late_states) reviewing enter_late s merging ts out h refl,
  follow_gate (λ u. state_in u merge_states) ready_to_merge enter_merge s merging ts (ground arith)
      h refl,
)

merged_stays : (t : ReviewState) → validate_transition merged t ≡ ok tt → t ≡ merged
unfolding validate_transition
merged_stays t h = ground arith

-- A merged job stays merged, whatever valid transitions follow.
pub follow-merged : (t : ReviewState) (ts : List ReviewState) → follow merged ts ≡ ok t → t ≡ merged
unfolding follow
follow-merged t [] h = ground arith
follow-merged t (u ∷ ts) h =
    let (_, valid, rest) = >>=-eq-ok (validate_transition merged u) (λ _. follow u ts) h in
    follow-merged t ts (rw (merged_stays u valid) at rest)

-- The shortest way from a state to MERGED.
abbrev pub way_to_merged : ReviewState → List ReviewState
way_to_merged merged = []
way_to_merged closed = queued ∷ merged ∷ []
way_to_merged _ = merged ∷ []

-- From every state at most two valid transitions lead to MERGED, and from every state but CLOSED at
-- most one does.
pub follow-way_to_merged :
    (s : ReviewState)
    → (follow s (way_to_merged s) ≡ ok merged)
      × (length (way_to_merged s) ≤ 2)
      × (s ≢ closed → length (way_to_merged s) ≤ 1)
unfolding follow validate_transition
follow-way_to_merged s = ground arith

-- Every active state may become OBSOLETE, and every state but MERGED and CLOSED may be closed.
pub active_may_end :
    (s : ReviewState)
    → (state_in s active_states ≡ true → validate_transition s obsolete ≡ ok tt)
      × (s ≢ merged → validate_transition s closed ≡ ok tt)
unfolding validate_transition
active_may_end s = ground arith
