-- ===== src/Store/Labels/Timeline.antt =====
-- reviewer/state.py: the part of `_apply_github_label_approval` that reads the label timeline. It is
-- compared with the stored events, the event of the webhook is found in it, and the fold gives each
-- event the generation of its label.
use dohwa_hermes_stack.Base.{
  ℕ, zero, suc, ◌+◌, Bool, true, false, not, ◌&&◌, Option, none, some, List, [], ◌∷◌, String, ◌==◌,
  ◌=t◌, opt_eq, ltb, any, select, length, find_row, order_by, if◌then◌else◌,
}
use dohwa_hermes_stack.Models.{WebhookEvent}
use dohwa_hermes_stack.Store.Tables.{StateStore}
use dohwa_hermes_stack.Store.Tables.Signed.{TimelineItem, LabelEventRow}

-- `immutable_fields`, compared one by one.
unfoldable pub same_item : TimelineItem → TimelineItem → Bool
same_item a b =
    ((a.event_id =t b.event_id && a.repository_id == b.repository_id)
      && (a.repository =t b.repository && a.pull_number == b.pull_number))
    && (((a.label_node_id =t b.label_node_id && a.label_name =t b.label_name)
          && (a.action =t b.action && opt_eq ◌=t◌ a.actor_type b.actor_type))
        && (((opt_eq ◌==◌ a.actor_github_user_id b.actor_github_user_id
                && opt_eq ◌=t◌ a.actor_node_id b.actor_node_id)
              && (opt_eq ◌=t◌ a.actor_login b.actor_login && a.created_at =t b.created_at))
            && (a.ordinal == b.ordinal
                && opt_eq ◌=t◌ a.predecessor_event_id b.predecessor_event_id)))

abbrev pub is_event_of : ℕ → ℕ → LabelEventRow → Bool
is_event_of repository_id pull_number r =
    r.item.repository_id == repository_id && r.item.pull_number == pull_number

abbrev pub event_before : LabelEventRow → LabelEventRow → Bool
event_before a b = ltb a.item.ordinal b.item.ordinal

-- The stored events of the pull request, `ORDER BY ordinal`.
unfoldable pub stored_events : ℕ → ℕ → StateStore → List LabelEventRow
unfolding order_by
stored_events repository_id pull_number s =
    order_by event_before (select (is_event_of repository_id pull_number) s.label_events)

-- `zip(stored, timeline)` without a difference.
unfoldable pub agrees : List LabelEventRow → List TimelineItem → Bool
unfolding same_item
agrees [] timeline = true
agrees (r ∷ rs) [] = true
agrees (r ∷ rs) (i ∷ is) = same_item r.item i && agrees rs is

abbrev pub is_stored : List LabelEventRow → TimelineItem → Bool
is_stored rows i = any (λ r. r.item.event_id =t i.event_id) rows

-- The event of the timeline is the one that the webhook reports.
unfoldable pub is_match : (String → String) → WebhookEvent → TimelineItem → Bool
is_match lower e i =
    ((opt_eq ◌==◌ (some i.repository_id) e.repository_id
        && opt_eq ◌=t◌ (some i.repository) e.repository)
      && (opt_eq ◌==◌ (some i.pull_number) e.pull_number
          && opt_eq ◌=t◌ (some (lower i.action)) e.action))
    && (((opt_eq ◌=t◌ (some i.label_node_id) e.label_node_id
            && opt_eq ◌=t◌ (some i.label_name) e.label_name)
          && (opt_eq ◌=t◌ i.actor_type e.sender_type
              && opt_eq ◌==◌ i.actor_github_user_id e.sender_id))
        && ((opt_eq ◌=t◌ i.actor_node_id e.sender_node_id
              && opt_eq ◌=t◌ i.actor_login e.sender_login)
            && opt_eq ◌=t◌ (some i.created_at) e.pull_updated_at))

-- The dictionaries of the fold, each as a function from its key, and the generations of the events,
-- the latest first.
pub record LabelFold : Type 0 where
  pub generations : String → ℕ
  pub active_node : String → Option String
  pub event_generations : List (String × ℕ)
  pub previous_id : Option String

abbrev pub empty_fold : LabelFold
empty_fold = record {
  generations = λ label. 0;
  active_node = λ label. none;
  event_generations = [];
  previous_id = none;
}

-- `d[key] = value`, and `d.pop(key, None)` where the value is none.
abbrev pub put {ℓ} : {A : Type ℓ} → String → A → (String → A) → String → A
put key value d k = if key =t k then value else d k

-- `active.get(label, False)`: a label is active while it has its node.
abbrev pub is_active : LabelFold → String → Bool
is_active f label = elim (f.active_node label) [ none ↦ false | some n ↦ true ]

-- What an event of the label does to the fold, once its place in the timeline is right; none where
-- the timeline is malformed.
unfoldable pub fold_action : TimelineItem → LabelFold → Option LabelFold
fold_action i f =
    if i.action =t "LABELED"
    then if is_active f i.label_name
      then none
      else some (record {
        generations = put i.label_name (f.generations i.label_name + 1) f.generations;
        active_node = put i.label_name (some i.label_node_id) f.active_node;
        event_generations = (i.event_id, f.generations i.label_name + 1) ∷ f.event_generations;
        previous_id = some i.event_id;
      })
    else if i.action =t "UNLABELED"
        && opt_eq ◌=t◌ (f.active_node i.label_name) (some i.label_node_id)
    then some (record {
      generations = f.generations;
      active_node = put i.label_name none f.active_node;
      event_generations = (i.event_id, f.generations i.label_name) ∷ f.event_generations;
      previous_id = some i.event_id;
    })
    else none

-- One turn of the loop of the fold.
unfoldable pub fold_item : ℕ → TimelineItem → LabelFold → Option LabelFold
unfolding fold_action
fold_item expected_ordinal i f =
    if i.ordinal == expected_ordinal && opt_eq ◌=t◌ i.predecessor_event_id f.previous_id
    then fold_action i f
    else none

unfoldable pub fold_timeline : ℕ → List TimelineItem → LabelFold → Option LabelFold
unfolding fold_item
fold_timeline expected_ordinal [] f = some f
fold_timeline expected_ordinal (i ∷ is) f = elim (fold_item expected_ordinal i f) [
  | none ↦ none
  | some g ↦ fold_timeline (expected_ordinal + 1) is g
]

abbrev pub generation_in : String → List (String × ℕ) → ℕ
generation_in event_id [] = 0
generation_in event_id ((i, g) ∷ rest) =
    let older = generation_in event_id rest in if i =t event_id then g else older

-- `event_generation[event_id]`. Every event of the timeline has one.
unfoldable pub event_generation : LabelFold → String → ℕ
event_generation f event_id = generation_in event_id f.event_generations

-- `timeline[:n]` and `timeline[n:]`.
abbrev pub take : ℕ → List TimelineItem → List TimelineItem
take zero xs = []
take (suc n) [] = []
take (suc n) (x ∷ xs) = x ∷ take n xs

abbrev pub drop : ℕ → List TimelineItem → List TimelineItem
drop zero xs = xs
drop (suc n) [] = []
drop (suc n) (x ∷ xs) = drop n xs

-- What the reading of the timeline ends with: a rejection, with its generation and whether it affects
-- what is current, or the event of the webhook with the fold.
pub data Reading : Type 0 where
  turned_away : String → Option ℕ → Bool → Reading
  found : TimelineItem → LabelFold → Reading

-- `SELECT generation FROM github_label_events WHERE event_id = ?`.
unfoldable pub recorded_generation : String → StateStore → Option ℕ
unfolding find_row
recorded_generation event_id s =
    elim (find_row (λ (r : LabelEventRow). r.item.event_id =t event_id) s.label_events) [
      | none ↦ none
      | some r ↦ some r.generation
    ]

unfoldable pub read_candidate : List TimelineItem → TimelineItem → Reading
unfolding fold_timeline
read_candidate timeline candidate = elim (fold_timeline 1 timeline empty_fold) [
  | none ↦ turned_away "TIMELINE_ORDER_AMBIGUOUS" none true
  | some f ↦ found candidate f
]

-- The events of the timeline that match the webhook: exactly one must, and be new.
unfoldable pub read_matches :
    List LabelEventRow → List TimelineItem → StateStore → List TimelineItem → Reading
unfolding recorded_generation read_candidate
read_matches stored timeline s (i ∷ []) =
    if is_stored stored i
    then turned_away "TIMELINE_EVENT_ALREADY_RECORDED" (recorded_generation i.event_id s) false
    else read_candidate timeline i
read_matches stored timeline s _ = turned_away "TIMELINE_EVENT_MATCH_NOT_UNIQUE" none true

-- The snapshot of a timeline: the pull request and its events.
pub record Snapshot : Type 0 where
  pub repository_id : ℕ
  pub repository : String
  pub pull_number : ℕ
  pub total_count : ℕ
  pub timeline : List TimelineItem

unfoldable pub is_snapshot_of : WebhookEvent → Snapshot → Bool
is_snapshot_of e n =
    opt_eq ◌==◌ e.repository_id (some n.repository_id)
    && (opt_eq ◌=t◌ e.repository (some n.repository)
        && opt_eq ◌==◌ e.pull_number (some n.pull_number))

unfoldable pub read_timeline : (String → String) → WebhookEvent → Snapshot → StateStore → Reading
unfolding is_snapshot_of stored_events agrees is_match read_matches
read_timeline lower e n s =
    let stored = stored_events n.repository_id n.pull_number s in
    if not (is_snapshot_of e n)
    then turned_away "SNAPSHOT_IDENTITY_MISMATCH" none true
    else if ltb (length n.timeline) (length stored)
    then turned_away "TIMELINE_PREFIX_ROLLBACK" none true
    else if not (agrees stored n.timeline)
    then turned_away "TIMELINE_PREFIX_MISMATCH" none true
    else read_matches stored n.timeline s (select (is_match lower e) n.timeline)
