-- ===== src/Approval/Labels/Complete.antt =====
-- The fold accepts every well-formed label timeline.
use dohwa_hermes_stack.Base.{
  ℕ, ◌+◌, ◌≤◌, ◌≡◌, refl, Bool, true, false, not, Option, none, some, List, [], ◌∷◌, String, arith,
  eq_iff, opt_eq-text, All, All-imp₂, All-intro, ok,
}
use dohwa_hermes_stack.Approval.Labels.{
  LabelAction, labeled, unlabeled, AuthoritativeLabelEvent, AuthoritativeLabelPrefix, contains_id,
  previous_id, check_label_event, apply_label_action, fold_label_events,
  fold_authoritative_label_prefix,
}
use dohwa_hermes_stack.Approval.Labels.Counts.{
  Numbered, Chained, Distinct, Ordered, SameLabel, latest,
}

-- Additions and removals alternate; the flag says whether the label is there before.
abbrev pub MayApply : Bool → LabelAction → Type 0
MayApply active labeled = active ≡ false
MayApply active unlabeled = active ≡ true

abbrev pub Alternates : Bool → List AuthoritativeLabelEvent → Type 0
Alternates active [] = Unit
Alternates active (e ∷ es) = MayApply active e.action × Alternates (not active) es

apply_alternate :
    (x : LabelAction) (g : ℕ) (a : Bool)
    → MayApply a x
    → (g' : ℕ) × (apply_label_action x g a ≡ ok (g', not a))
unfolding apply_label_action
apply_alternate labeled g a h = (g + 1, ground arith)
apply_alternate unlabeled g a h = (g, ground arith)

check_chained :
    (first : AuthoritativeLabelEvent) (n : ℕ) (seen : List String)
    (previous : Option AuthoritativeLabelEvent) (e : AuthoritativeLabelEvent)
    → e.ordinal ≡ n
    → e.predecessor_event_id ≡ previous_id previous
    → contains_id seen e.event_id ≡ false
    → latest previous ≤ e.created_at
    → e.repository_id ≡ first.repository_id
    → e.pull_number ≡ first.pull_number
    → e.label_name ≡ first.label_name
    → check_label_event first n seen previous e ≡ ok tt
unfolding check_label_event
check_chained first n seen previous e o c f t r p l = ground (
  arith,
  opt_eq-text e.predecessor_event_id (previous_id previous),
  eq_iff e.label_name first.label_name,
)

module _ (first : AuthoritativeLabelEvent) where
  abbrev Same : AuthoritativeLabelEvent → Type 0
  Same e =
      (e.repository_id ≡ first.repository_id)
      × (e.pull_number ≡ first.pull_number)
      × (e.label_name ≡ first.label_name)

  fold_complete :
      (n : ℕ) (seen : List String) (previous : Option AuthoritativeLabelEvent) (g : ℕ) (a : Bool)
      (es : List AuthoritativeLabelEvent)
      → All Same es
      → Numbered n es
      → Chained (previous_id previous) es
      → Distinct es
      → All (λ e. contains_id seen e.event_id ≡ false) es
      → Ordered es
      → All (λ e. latest previous ≤ e.created_at) es
      → Alternates a es
      → (p : AuthoritativeLabelPrefix) × (fold_label_events first n seen previous g a es ≡ ok p)
  unfolding fold_label_events
  fold_complete n seen previous g a [] s o c d f t l x =
      (record { events = []; latest_generation = g; label_is_active = a }, refl)
  fold_complete n seen previous g a (e ∷ es) s o c d f t l x =
      let k = check_chained first n seen previous e o.0 c.0 f.0 l.0 (s.0).0 (s.0).1 (s.0).2 in
      let (g', q) = apply_alternate e.action g a x.0 in
      let (p, r) =
        fold_complete (n + 1) (e.event_id ∷ seen) (some e) g' (not a) es s.1 o.1 c.1 d.1
          (All-imp₂ _ _ _ (λ y u w. ground (arith, eq_iff e.event_id y.event_id)) es f.1 d.0) t.1
          t.0 x.1 in
      (
        record p {
          events = (record { event = e; generation = g'; label_is_active = not a }) ∷ p.events;
        },
        rw k (rw q (rw r refl)),
      )

-- Every timeline of one label of one pull request whose ordinals count from 1, whose events name
-- their predecessors, whose identities are distinct, whose times do not decrease and whose
-- additions and removals alternate from an addition is accepted.
pub fold_authoritative_label_prefix_complete :
    (es : List AuthoritativeLabelEvent)
    → SameLabel es
    → Numbered 1 es
    → Chained none es
    → Distinct es
    → Ordered es
    → Alternates false es
    → (p : AuthoritativeLabelPrefix) × (fold_authoritative_label_prefix es ≡ ok p)
unfolding fold_authoritative_label_prefix
fold_authoritative_label_prefix_complete [] s o c d t x =
    (record { events = []; latest_generation = 0; label_is_active = false }, refl)
fold_authoritative_label_prefix_complete (first ∷ es) s o c d t x =
    fold_complete first 1 [] none 0 false (first ∷ es) s o c d
      (All-intro _ (λ e. refl) (first ∷ es)) t (All-intro _ (λ e. omega arith) (first ∷ es)) x
