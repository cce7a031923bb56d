-- ===== src/Approval/Labels.antt =====
-- reviewer/approval.py: label events of a pull request's timeline, and their fold into a
-- generation and an active flag.
pub mod Counts
pub mod Complete
use dohwa_hermes_stack.Base.{
  ℕ, ◌+◌, ◌≡◌, refl, Bool, true, false, not, ◌&&◌, ◌||◌, Option, none, some, List, [], ◌∷◌, String,
  arith, ltb, ◌==◌, ◌=t◌, opt_eq, any, Result, ok, err, value_error, refuse, require, ◌>>=◌, ◌>>◌,
  if◌then◌else◌, Value, null,
}
use dohwa_hermes_stack.Approval.Checks.{positive_int, ascii_token, utc_datetime}

pub data LabelAction : Type 0 where
  labeled unlabeled : LabelAction

pub record AuthoritativeLabelEvent : Type 0 where
  pub event_id : String
  pub repository_id : ℕ
  pub pull_number : ℕ
  pub label_name : String
  pub action : LabelAction
  pub actor_github_user_id : Option ℕ
  pub created_at : ℕ  -- microseconds
  pub ordinal : ℕ
  pub predecessor_event_id : Option String

-- `if value is not None: check(value)`.
optional {ℓ} : {A : Type ℓ} → (Value → Result A) → Value → Result (Option A)
optional check null = ok none
optional check v = do a ← check v; ok (some a)

unfoldable pub label_event :
    (event_id repository_id pull_number label_name : Value) (action : LabelAction)
    (actor_github_user_id created_at ordinal predecessor_event_id : Value)
    → Result AuthoritativeLabelEvent
unfolding optional
label_event event_id repository_id pull_number label_name action actor created_at ordinal
      predecessor =
    do
      e ← ascii_token 256 event_id
      r ← positive_int repository_id
      p ← positive_int pull_number
      l ← ascii_token 128 label_name
      a ← optional positive_int actor
      t ← utc_datetime created_at
      n ← positive_int ordinal
      q ← optional (ascii_token 256) predecessor
      refuse (opt_eq ◌=t◌ q (some e)) (value_error "event cannot be its own predecessor")
      ok (record {
        event_id = e;
        repository_id = r;
        pull_number = p;
        label_name = l;
        action = action;
        actor_github_user_id = a;
        created_at = t;
        ordinal = n;
        predecessor_event_id = q;
      })

pub record FoldedLabelEvent : Type 0 where
  pub event : AuthoritativeLabelEvent
  pub generation : ℕ
  pub label_is_active : Bool

pub record AuthoritativeLabelPrefix : Type 0 where
  pub events : List FoldedLabelEvent
  pub latest_generation : ℕ
  pub label_is_active : Bool

unfoldable pub active_generation : AuthoritativeLabelPrefix → Option ℕ
active_generation p = if p.label_is_active then some p.latest_generation else none

-- `event_id in seen`.
abbrev pub contains_id : List String → String → Bool
contains_id seen i = any (λ s. s =t i) seen

-- The event before, if there is one: its identity and its time.
abbrev pub previous_id : Option AuthoritativeLabelEvent → Option String
previous_id none = none
previous_id (some e) = some e.event_id

abbrev precedes : AuthoritativeLabelEvent → Option AuthoritativeLabelEvent → Bool
precedes e none = false
precedes e (some p) = ltb e.created_at p.created_at

-- The checks of one event of the timeline, in the order of the source.
unfoldable pub check_label_event :
    AuthoritativeLabelEvent
    → ℕ
    → List String
    → Option AuthoritativeLabelEvent
    → AuthoritativeLabelEvent
    → Result (Unit {0})
check_label_event first expected_ordinal seen previous e = do
  require
      (e.repository_id == first.repository_id
        && (e.pull_number == first.pull_number && e.label_name =t first.label_name))
      (value_error "timeline prefix crosses repository, pull, or label")
  refuse (contains_id seen e.event_id) (value_error "timeline contains a duplicate stable event ID")
  require (e.ordinal == expected_ordinal)
      (value_error "timeline prefix is not ordinally continuous")
  require (opt_eq ◌=t◌ e.predecessor_event_id (previous_id previous))
      (value_error "timeline predecessor chain is discontinuous")
  refuse (precedes e previous) (value_error "timeline timestamps contradict authoritative order")

-- The generation and the flag after an action.
unfoldable pub apply_label_action : LabelAction → ℕ → Bool → Result (ℕ × Bool)
apply_label_action labeled generation active =
    if active
    then err (value_error "timeline contains consecutive label additions")
    else ok (generation + 1, true)
apply_label_action unlabeled generation active =
    if active
    then ok (generation, false)
    else err (value_error "timeline removes a label that is not active")

-- The loop over the events.
unfoldable pub fold_label_events :
    AuthoritativeLabelEvent
    → ℕ
    → List String
    → Option AuthoritativeLabelEvent
    → ℕ
    → Bool
    → List AuthoritativeLabelEvent
    → Result AuthoritativeLabelPrefix
fold_label_events first n seen previous generation active [] =
    ok (record { events = []; latest_generation = generation; label_is_active = active })
fold_label_events first n seen previous generation active (e ∷ es) = do
  check_label_event first n seen previous e
  (g, a) ← apply_label_action e.action generation active
  rest ← fold_label_events first (n + 1) (e.event_id ∷ seen) (some e) g a es
  ok (record rest {
    events = (record { event = e; generation = g; label_is_active = a }) ∷ rest.events;
  })

unfoldable pub fold_authoritative_label_prefix :
    List AuthoritativeLabelEvent → Result AuthoritativeLabelPrefix
fold_authoritative_label_prefix [] =
    ok (record { events = []; latest_generation = 0; label_is_active = false })
fold_authoritative_label_prefix (first ∷ rest) =
    fold_label_events first 1 [] none 0 false (first ∷ rest)
