-- ===== src/Examples/Lifecycle.antt =====
-- Lives of a review job and of an approval.
use dohwa_hermes_stack.Base.{◌≡◌, refl, true, List, [], ◌∷◌, any, length, ok, ◌≢◌, ◌≤◌}
use dohwa_hermes_stack.Models.{
  ReviewState, discovered, queued, reviewing, waiting_ci, ready_to_merge, merging, merged, closed,
  ◌=s◌, validate_transition,
}
use dohwa_hermes_stack.Models.Lifecycle.{
  follow, follow-merging, way_to_merged, follow-way_to_merged,
}
use dohwa_hermes_stack.Approval.Status.{
  ApprovalStatus, validate_approval_transition, follow_approval, follow_approval-consumed,
}

abbrev whole_life : List ReviewState
whole_life = queued ∷ reviewing ∷ waiting_ci ∷ ready_to_merge ∷ merging ∷ []

follow-merging_example :
    (any (λ u. u =s reviewing) whole_life ≡ true)
    × (any (λ u. u =s ready_to_merge) whole_life ≡ true)
unfolding follow validate_transition
follow-merging_example = follow-merging discovered whole_life refl refl

follow-way_to_merged_example :
    (follow closed (way_to_merged closed) ≡ ok merged)
    × (length (way_to_merged closed) ≤ 2)
    × (closed ≢ closed → length (way_to_merged closed) ≤ 1)
follow-way_to_merged_example = follow-way_to_merged closed

follow_approval-consumed_example :
    (ApprovalStatus.active ∷ ApprovalStatus.consumed ∷ [])
    ≡ (ApprovalStatus.active ∷ ApprovalStatus.consumed ∷ [])
unfolding follow_approval validate_approval_transition
follow_approval-consumed_example =
    follow_approval-consumed (ApprovalStatus.active ∷ ApprovalStatus.consumed ∷ []) refl
