-- ===== src/Approval/Status.antt =====
-- reviewer/approval.py: the states of a review attempt and of an approval, and the transitions
-- that an approval may make.
use dohwa_hermes_stack.Base.{
  ℕ, ◌≡◌, List, [], ◌∷◌, arith, ◌==◌, any, Result, ok, ◌>>◌, value_error, require,
}

pub data ReviewAttemptStatus : Type 0 where
  prepared active invalidated : ReviewAttemptStatus

pub data ApprovalStatus : Type 0 where
  pending active consumed invalidated : ApprovalStatus

abbrev status_index : ApprovalStatus → ℕ
status_index ApprovalStatus.pending = 0
status_index ApprovalStatus.active = 1
status_index ApprovalStatus.consumed = 2
status_index ApprovalStatus.invalidated = 3

abbrev pub allowed_approval_transitions : ApprovalStatus → List ApprovalStatus
allowed_approval_transitions ApprovalStatus.pending =
    ApprovalStatus.active ∷ ApprovalStatus.invalidated ∷ []
allowed_approval_transitions ApprovalStatus.active =
    ApprovalStatus.consumed ∷ ApprovalStatus.invalidated ∷ []
allowed_approval_transitions ApprovalStatus.consumed = []
allowed_approval_transitions ApprovalStatus.invalidated = []

unfoldable pub validate_approval_transition : ApprovalStatus → ApprovalStatus → Result (Unit {0})
validate_approval_transition current target =
    require
      (any (λ s. status_index target == status_index s) (allowed_approval_transitions current))
      (value_error "approval transition is not allowed")

-- An approval that is moved to each status of a list in turn.
unfoldable pub follow_approval : ApprovalStatus → List ApprovalStatus → Result ApprovalStatus
follow_approval s [] = ok s
follow_approval s (t ∷ ts) = do validate_approval_transition s t; follow_approval t ts

-- A pending approval is consumed exactly by becoming active and then being consumed, with no
-- transition between.
pub follow_approval-consumed :
    (ts : List ApprovalStatus)
    → follow_approval ApprovalStatus.pending ts ≡ ok ApprovalStatus.consumed
    → ts ≡ ApprovalStatus.active ∷ ApprovalStatus.consumed ∷ []
unfolding follow_approval validate_approval_transition
follow_approval-consumed [] h = absurd (ground arith)
follow_approval-consumed (a ∷ []) h = absurd (ground arith)
follow_approval-consumed (a ∷ b ∷ []) h = ground arith
follow_approval-consumed (a ∷ b ∷ c ∷ ts) h = absurd (ground arith)
