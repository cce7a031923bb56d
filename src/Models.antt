-- ===== src/Models.antt =====
-- reviewer/models.py: the states of a review job, its allowed transitions, and the rows and events
-- that the state store exchanges with the orchestrator.
pub mod Lifecycle
use dohwa_hermes_stack.Base.{
  ℕ, ◌≡◌, refl, ◌↔◌, Bool, true, false, ◌&&◌, ◌||◌, not, Option, none, some, List, [], ◌∷◌, String,
  arith, ◌==◌, ◌=t◌, any, Result, ok, err, invalid_state_transition, require, if◌then◌else◌,
}

pub data ReviewState : Type 0 where
  discovered waiting_ready queued reviewing waiting_ci changes_required human_review : ReviewState
  failed ready_to_merge merging merged obsolete closed : ReviewState

abbrev state_index : ReviewState → ℕ
state_index discovered = 0
state_index waiting_ready = 1
state_index queued = 2
state_index reviewing = 3
state_index waiting_ci = 4
state_index changes_required = 5
state_index human_review = 6
state_index failed = 7
state_index ready_to_merge = 8
state_index merging = 9
state_index merged = 10
state_index obsolete = 11
state_index closed = 12

infix 50 ◌=s◌
abbrev pub ◌=s◌ : ReviewState → ReviewState → Bool
a =s b = state_index a == state_index b

pub =s_eq : (a b : ReviewState) → (a =s b) ≡ true → a ≡ b
=s_eq a b h = ground arith

-- `state in {...}`.
abbrev pub state_in : ReviewState → List ReviewState → Bool
state_in s = any (λ t. s =s t)

pub data CiRequestState : Type 0 where
  planned blocked : CiRequestState

-- `ALLOWED_TRANSITIONS`.
abbrev pub allowed_transitions : ReviewState → List ReviewState
allowed_transitions discovered =
    waiting_ready ∷ queued ∷ human_review ∷ closed ∷ merged ∷ obsolete ∷ []
allowed_transitions waiting_ready = queued ∷ closed ∷ merged ∷ obsolete ∷ []
allowed_transitions queued = reviewing ∷ waiting_ready ∷ failed ∷ closed ∷ merged ∷ obsolete ∷ []
allowed_transitions reviewing =
    waiting_ready ∷ queued ∷ waiting_ci ∷ changes_required ∷ human_review ∷ failed ∷ ready_to_merge
    ∷ closed ∷ merged ∷ obsolete ∷ []
allowed_transitions waiting_ci =
    waiting_ready ∷ changes_required ∷ human_review ∷ failed ∷ ready_to_merge ∷ closed ∷ merged
    ∷ obsolete ∷ []
allowed_transitions changes_required = closed ∷ merged ∷ obsolete ∷ []
allowed_transitions human_review = queued ∷ closed ∷ merged ∷ obsolete ∷ []
allowed_transitions failed = queued ∷ closed ∷ merged ∷ obsolete ∷ []
allowed_transitions ready_to_merge =
    waiting_ready ∷ human_review ∷ merging ∷ failed ∷ closed ∷ merged ∷ obsolete ∷ []
allowed_transitions merging =
    waiting_ready ∷ merged ∷ failed ∷ human_review ∷ closed ∷ obsolete ∷ []
allowed_transitions merged = []
allowed_transitions obsolete = closed ∷ merged ∷ []
allowed_transitions closed = waiting_ready ∷ queued ∷ []

-- `ACTIVE_STATES`.
abbrev pub active_states : List ReviewState
active_states =
    discovered ∷ waiting_ready ∷ queued ∷ reviewing ∷ waiting_ci ∷ ready_to_merge ∷ merging ∷ []

unfoldable pub validate_transition : ReviewState → ReviewState → Result (Unit {0})
validate_transition current target =
    if current =s target
    then ok tt
    else require (state_in target (allowed_transitions current)) invalid_state_transition

pub record WebhookEvent : Type 0 where
  pub delivery_id : String
  pub event_name : String
  pub action : Option String
  pub repository_id : Option ℕ
  pub repository : Option String
  pub installation_id : Option ℕ
  pub pull_number : Option ℕ
  pub base_sha : Option String
  pub head_sha : Option String
  pub is_draft : Option Bool
  pub is_merged : Option Bool
  pub merge_sha : Option String
  pub label_id : Option ℕ
  pub label_node_id : Option String
  pub label_name : Option String
  pub sender_id : Option ℕ
  pub sender_node_id : Option String
  pub sender_login : Option String
  pub sender_type : Option String
  pub pull_updated_at : Option String
  pub payload_sha256 : Option String

-- The truth value of an optional text, number or flag.
abbrev pub text_truth : Option String → Bool
text_truth none = false
text_truth (some s) = not (s =t "")

abbrev pub number_truth : Option ℕ → Bool
number_truth none = false
number_truth (some n) = not (n == 0)

abbrev pub flag_truth : Option Bool → Bool
flag_truth none = false
flag_truth (some b) = b

abbrev pub has_pull_request : WebhookEvent → Bool
has_pull_request e =
    text_truth e.repository && (number_truth e.pull_number && text_truth e.head_sha)

-- A row of `review_jobs`. A time is its count of microseconds.
pub record ReviewJob : Type 0 where
  pub id : ℕ
  pub repository_id : Option ℕ
  pub repository : String
  pub pull_number : ℕ
  pub base_sha : Option String
  pub head_sha : String
  pub state : ReviewState
  pub queued_at : Option ℕ
  pub started_at : Option ℕ
  pub finished_at : Option ℕ
  pub attempt_count : ℕ
  pub review_decision : Option String
  pub findings_hash : Option String
  pub github_review_id : Option ℕ
  pub github_comment_id : Option ℕ
  pub discord_message_id : Option String
  pub discord_thread_id : Option String
  pub merge_sha : Option String
  pub last_error : Option String
  pub retry_at : Option ℕ
  pub created_at : ℕ
  pub updated_at : ℕ

pub record IngestResult : Type 0 where
  pub accepted_delivery : Bool
  pub created_job : Bool
  pub job : Option ReviewJob

pub record RecoveryReport : Type 0 where
  pub requeued_job_ids : List ℕ
  pub reconciliation_job_ids : List ℕ
