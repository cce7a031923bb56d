-- ===== src/Approval/Labels/Counts.antt =====
-- What an accepted label timeline satisfies: its generation counts the additions, its flag is the
-- balance of additions and removals, and its events are a chain.
use dohwa_hermes_stack.Base.{
  ℕ, ◌+◌, ◌≤◌, ◌≡◌, ap, ◌≢◌, Bool, true, false, Option, none, some, List, [], ◌∷◌, map, String,
  arith, eq_iff, opt_eq-text, All, All-imp, ok, >>=-eq-ok,
}
use dohwa_hermes_stack.Approval.Labels.{
  LabelAction, labeled, unlabeled, AuthoritativeLabelEvent, AuthoritativeLabelPrefix, contains_id,
  previous_id, check_label_event, apply_label_action, fold_label_events,
  fold_authoritative_label_prefix,
}

abbrev pub labeled_count : List AuthoritativeLabelEvent → ℕ
labeled_count [] = 0
labeled_count (e ∷ es) = elim e.action [ labeled ↦ 1 | unlabeled ↦ 0 ] + labeled_count es

abbrev pub unlabeled_count : List AuthoritativeLabelEvent → ℕ
unlabeled_count [] = 0
unlabeled_count (e ∷ es) = elim e.action [ labeled ↦ 0 | unlabeled ↦ 1 ] + unlabeled_count es

abbrev pub bit : Bool → ℕ
bit true = 1
bit false = 0

-- The ordinals are n, n + 1, ...
abbrev pub Numbered : ℕ → List AuthoritativeLabelEvent → Type 0
Numbered n [] = Unit
Numbered n (e ∷ es) = (e.ordinal ≡ n) × Numbered (n + 1) es

-- No identity repeats, and each event names the one before.
abbrev pub Distinct : List AuthoritativeLabelEvent → Type 0
Distinct [] = Unit
Distinct (e ∷ es) = All (λ x. e.event_id ≢ x.event_id) es × Distinct es

abbrev pub Chained : Option String → List AuthoritativeLabelEvent → Type 0
Chained before [] = Unit
Chained before (e ∷ es) = (e.predecessor_event_id ≡ before) × Chained (some e.event_id) es

-- No event is earlier than one before it.
abbrev pub Ordered : List AuthoritativeLabelEvent → Type 0
Ordered [] = Unit
Ordered (e ∷ es) = All (λ x. e.created_at ≤ x.created_at) es × Ordered es

-- A loop that succeeds on `e ∷ es` succeeds on `es`.
record Step (first : AuthoritativeLabelEvent) (n : ℕ) (seen : List String)
    (previous : Option AuthoritativeLabelEvent) (g : ℕ) (a : Bool) (e : AuthoritativeLabelEvent)
    (es : List AuthoritativeLabelEvent) (p : AuthoritativeLabelPrefix) : Type 0 where
  g' : ℕ
  a' : Bool
  tail : AuthoritativeLabelPrefix
  checked : check_label_event first n seen previous e ≡ ok tt
  applied : apply_label_action e.action g a ≡ ok (g', a')
  looped : fold_label_events first (n + 1) (e.event_id ∷ seen) (some e) g' a' es ≡ ok tail
  whole : p ≡ record {
    events = (record { event = e; generation = g'; label_is_active = a' }) ∷ tail.events;
    latest_generation = tail.latest_generation;
    label_is_active = tail.label_is_active;
  }

fold-Step :
    (first : AuthoritativeLabelEvent) (n : ℕ) (seen : List String)
    (previous : Option AuthoritativeLabelEvent) (g : ℕ) (a : Bool) (e : AuthoritativeLabelEvent)
    (es : List AuthoritativeLabelEvent) (p : AuthoritativeLabelPrefix)
    → fold_label_events first n seen previous g a (e ∷ es) ≡ ok p
    → Step first n seen previous g a e es p
unfolding fold_label_events
fold-Step first n seen previous g a e es p h =
    let (_, c, h1) = >>=-eq-ok (check_label_event first n seen previous e) _ h in
    let (ga, q, h2) = >>=-eq-ok (apply_label_action e.action g a) _ h1 in
    let (t, l, h3) =
      >>=-eq-ok (fold_label_events first (n + 1) (e.event_id ∷ seen) (some e) ga.0 ga.1 es) _ h2 in
    record {
      g' = ga.0;
      a' = ga.1;
      tail = t;
      checked = c;
      applied = q;
      looped = l;
      whole = ground arith;
    }

-- The time of the event before.
abbrev pub latest : Option AuthoritativeLabelEvent → ℕ
latest none = 0
latest (some p) = p.created_at

check_label_event-ok :
    (first : AuthoritativeLabelEvent) (n : ℕ) (seen : List String)
    (previous : Option AuthoritativeLabelEvent) (e : AuthoritativeLabelEvent)
    → check_label_event first n seen previous e ≡ ok tt
    → (e.ordinal ≡ n)
      × (e.predecessor_event_id ≡ previous_id previous)
      × (contains_id seen e.event_id ≡ false)
      × (latest previous ≤ e.created_at)
      × (e.repository_id ≡ first.repository_id)
      × (e.pull_number ≡ first.pull_number)
      × (e.label_name ≡ first.label_name)
unfolding check_label_event
check_label_event-ok first n seen previous e h = ground (
  arith,
  opt_eq-text e.predecessor_event_id (previous_id previous),
  eq_iff e.label_name first.label_name,
)

apply_label_action-ok :
    (x : LabelAction) (g : ℕ) (a : Bool) (g' : ℕ) (a' : Bool)
    → apply_label_action x g a ≡ ok (g', a')
    → (g' ≡ g + elim x [ labeled ↦ 1 | unlabeled ↦ 0 ])
      × (bit a + elim x [ labeled ↦ 1 | unlabeled ↦ 0 ]
          ≡ bit a' + elim x [ labeled ↦ 0 | unlabeled ↦ 1 ])
unfolding apply_label_action
apply_label_action-ok x g a g' a' h = ground arith

-- What the loop shows of the events that it accepts, from any point of a timeline.
record Accepted (first : AuthoritativeLabelEvent) (n : ℕ) (seen : List String)
    (previous : Option AuthoritativeLabelEvent) (g : ℕ) (a : Bool)
    (es : List AuthoritativeLabelEvent) (p : AuthoritativeLabelPrefix) : Type 0 where
  generation : p.latest_generation ≡ g + labeled_count es
  balance : bit a + labeled_count es ≡ unlabeled_count es + bit p.label_is_active
  kept : map (λ f. f.event) p.events ≡ es
  numbered : Numbered n es
  chained : Chained (previous_id previous) es
  fresh : All (λ e. contains_id seen e.event_id ≡ false) es
  distinct : Distinct es
  later : All (λ e. latest previous ≤ e.created_at) es
  ordered : Ordered es
  same :
      All
        (λ e.
          (e.repository_id ≡ first.repository_id)
          × (e.pull_number ≡ first.pull_number)
          × (e.label_name ≡ first.label_name))
        es

fold_label_events-Accepted :
    (first : AuthoritativeLabelEvent) (n : ℕ) (seen : List String)
    (previous : Option AuthoritativeLabelEvent) (g : ℕ) (a : Bool)
    (es : List AuthoritativeLabelEvent) (p : AuthoritativeLabelPrefix)
    → fold_label_events first n seen previous g a es ≡ ok p
    → Accepted first n seen previous g a es p
unfolding fold_label_events
fold_label_events-Accepted first n seen previous g a [] p h = record {
  generation = ground arith;
  balance = ground arith;
  kept = ground arith;
  numbered = tt;
  chained = tt;
  fresh = tt;
  distinct = tt;
  later = tt;
  ordered = tt;
  same = tt;
}
fold_label_events-Accepted first n seen previous g a (e ∷ es) p h =
    let s = fold-Step first n seen previous g a e es p h in
    let c = check_label_event-ok first n seen previous e s.checked in
    let (up, even) = apply_label_action-ok e.action g a s.g' s.a' s.applied in
    let r =
      fold_label_events-Accepted first (n + 1) (e.event_id ∷ seen) (some e) s.g' s.a' es s.tail
        s.looped in
    let w = s.whole in
    record {
      generation = rw w (omega (arith, r.generation, up));
      balance = rw w (omega (arith, r.balance, even));
      kept = rw w (ap (◌∷◌ e) r.kept);
      numbered = (c.0, r.numbered);
      chained = (c.1, r.chained);
      fresh = (c.2, All-imp _ _ (λ x f. ground arith) es r.fresh);
      distinct = (
        All-imp _ _ (λ x f. ground (arith, eq_iff e.event_id x.event_id)) es r.fresh,
        r.distinct,
      );
      later = (c.3, All-imp _ _ (λ x t. omega (arith, t, c.3)) es r.later);
      ordered = (r.later, r.ordered);
      same = ((c.4, c.5, c.6), r.same);
    }

-- The events belong to the pull request and the label of the first.
abbrev pub SameLabel : List AuthoritativeLabelEvent → Type 0
SameLabel [] = Unit
SameLabel (first ∷ es) =
    All
      (λ e.
        (e.repository_id ≡ first.repository_id)
        × (e.pull_number ≡ first.pull_number)
        × (e.label_name ≡ first.label_name))
      (first ∷ es)

-- The fold of an accepted timeline keeps its events in order, its generation is the number of
-- additions, and additions and removals are equal in number, or differ by one exactly when the
-- label is active.
pub fold_authoritative_label_prefix_counts :
    (es : List AuthoritativeLabelEvent) (p : AuthoritativeLabelPrefix)
    → fold_authoritative_label_prefix es ≡ ok p
    → (map (λ f. f.event) p.events ≡ es)
      × (p.latest_generation ≡ labeled_count es)
      × (labeled_count es ≡ unlabeled_count es + bit p.label_is_active)
unfolding fold_authoritative_label_prefix
fold_authoritative_label_prefix_counts [] p h = (ground arith, ground arith, ground arith)
fold_authoritative_label_prefix_counts (first ∷ es) p h =
    let r = fold_label_events-Accepted first 1 [] none 0 false (first ∷ es) p h in
    (r.kept, omega (arith, r.generation), omega (arith, r.balance))

-- An accepted timeline is a chain of one label of one pull request: the ordinals count from 1,
-- each event names the one before, no identity repeats, and no event is earlier than one before.
pub fold_authoritative_label_prefix_chain :
    (es : List AuthoritativeLabelEvent) (p : AuthoritativeLabelPrefix)
    → fold_authoritative_label_prefix es ≡ ok p
    → SameLabel es × Numbered 1 es × Chained none es × Distinct es × Ordered es
unfolding fold_authoritative_label_prefix
fold_authoritative_label_prefix_chain [] p h = (tt, tt, tt, tt, tt)
fold_authoritative_label_prefix_chain (first ∷ es) p h =
    let r = fold_label_events-Accepted first 1 [] none 0 false (first ∷ es) p h in
    (r.same, r.numbered, r.chained, r.distinct, r.ordered)
