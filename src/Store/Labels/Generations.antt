-- ===== src/Store/Labels/Generations.antt =====
-- The fold of the label timeline against its reference: a label's generation counts how often it was
-- added, and it is active when the last event about it added it.
use dohwa_hermes_stack.Base.{
  ℕ, suc, ◌+◌, ◌≡◌, sym, ap, ◌∙◌, Bool, true, false, ◌&&◌, Option, none, some, List, [], ◌∷◌,
  String, arith, ◌==◌, ◌=t◌, =t_iff, opt_eq, if◌then◌else◌, Option-cases, inl, inr,
}
use dohwa_hermes_stack.Store.Tables.Signed.{TimelineItem}
use dohwa_hermes_stack.Store.Labels.Timeline.{
  LabelFold, empty_fold, is_active, fold_action, fold_item, fold_timeline,
}

-- How many events of the timeline add the label.
abbrev pub added_count : String → List TimelineItem → ℕ
added_count label [] = 0
added_count label (i ∷ is) =
    let rest = added_count label is in
    if i.label_name =t label && i.action =t "LABELED" then suc rest else rest

-- Whether the last event about the label, if there is one, adds it.
abbrev pub last_adds : String → Bool → List TimelineItem → Bool
last_adds label before [] = before
last_adds label before (i ∷ is) =
    last_adds label (if i.label_name =t label then i.action =t "LABELED" else before) is

record Turns (label : String) (i : TimelineItem) (f g : LabelFold) : Type 0 where
  counts : g.generations label ≡ (
      if i.label_name =t label && i.action =t "LABELED"
      then suc (f.generations label)
      else f.generations label)
  activates :
      is_active g label
      ≡ (if i.label_name =t label then i.action =t "LABELED" else is_active f label)

fold_action-Turns :
    (label : String) (i : TimelineItem) (f g : LabelFold)
    → fold_action i f ≡ some g
    → Turns label i f g
unfolding fold_action
fold_action-Turns label i f g h = record {
  counts =
      ground
        (arith, =t_iff i.label_name label, =t_iff i.action "LABELED", =t_iff i.action "UNLABELED");
  activates = ground (
    arith,
    Option-cases (f.active_node i.label_name),
    Option-cases (f.active_node label),
    =t_iff i.label_name label,
    =t_iff i.action "LABELED",
    =t_iff i.action "UNLABELED",
  );
}

fold_item-Turns :
    (label : String) (n : ℕ) (i : TimelineItem) (f g : LabelFold)
    → fold_item n i f ≡ some g
    → Turns label i f g
unfolding fold_item
fold_item-Turns label n i f g h = fold_action-Turns label i f g (
    passed (i.ordinal == n && opt_eq ◌=t◌ i.predecessor_event_id f.previous_id) (fold_action i f) h)
  where
    passed : (b : Bool) (x : Option LabelFold) → (if b then x else none) ≡ some g → x ≡ some g
    passed true x e = e
    passed false x e = absurd (cc)

fold_from :
    (label : String) (n : ℕ) (is : List TimelineItem) (f g : LabelFold)
    → fold_timeline n is f ≡ some g
    → (g.generations label ≡ f.generations label + added_count label is)
      × (is_active g label ≡ last_adds label (is_active f label) is)
unfolding fold_timeline
fold_from label n [] f g h =
    let same : f ≡ g = ground arith in (ground arith, ap (λ x. is_active x label) (sym same))
fold_from label n (i ∷ is) f g h = elim (Option-cases (fold_item n i f)) [
  | inl e ↦ absurd (ground arith)
  | inr (m, e) ↦
      let turn = fold_item-Turns label n i f m e in
      let (counted, acts) = fold_from label (n + 1) is m g (ground arith) in
      (ground (arith, turn, counted), acts ∙ ap (λ b. last_adds label b is) turn.activates)
]

-- A timeline that the fold accepts has, for every label, the generation that counts how often the
-- label was added, and the label is active exactly when the last event about it added it.
pub fold_timeline_counts :
    (label : String) (timeline : List TimelineItem) (f : LabelFold)
    → fold_timeline 1 timeline empty_fold ≡ some f
    → (f.generations label ≡ added_count label timeline)
      × (is_active f label ≡ last_adds label false timeline)
fold_timeline_counts label timeline f h =
    let (counted, acts) = fold_from label 1 timeline empty_fold f h in
    (ground (arith, counted), acts)
