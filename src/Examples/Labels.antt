-- ===== src/Examples/Labels.antt =====
-- A label that is added, removed and added again.
use dohwa_hermes_stack.Base.{
  ℕ, ◌+◌, ◌*◌, ◌≡◌, refl, ◌≢◌, arith, eq_iff, ◌=t◌, true, false, Option, none, some, List, [], ◌∷◌,
  map, String, ok,
}
use dohwa_hermes_stack.Approval.Labels.{
  LabelAction, labeled, unlabeled, AuthoritativeLabelEvent, AuthoritativeLabelPrefix,
  check_label_event, apply_label_action, fold_label_events, fold_authoritative_label_prefix,
}
use dohwa_hermes_stack.Approval.Labels.Counts.{
  labeled_count, unlabeled_count, bit, Numbered, Chained, Distinct, Ordered, SameLabel,
  fold_authoritative_label_prefix_counts, fold_authoritative_label_prefix_chain,
}
use dohwa_hermes_stack.Approval.Labels.Complete.{fold_authoritative_label_prefix_complete}

abbrev label_at : String → LabelAction → ℕ → Option String → AuthoritativeLabelEvent
label_at i action n before = record {
  event_id = i;
  repository_id = 7;
  pull_number = 12;
  label_name = "approved";
  action = action;
  actor_github_user_id = some 5;
  created_at = n * 10;
  ordinal = n;
  predecessor_event_id = before;
}

abbrev timeline : List AuthoritativeLabelEvent
timeline =
    label_at "e1" labeled 1 none
    ∷ label_at "e2" unlabeled 2 (some "e1")
    ∷ label_at "e3" labeled 3 (some "e2")
    ∷ []

abbrev folded : AuthoritativeLabelPrefix
folded = record {
  events =
      (record { event = label_at "e1" labeled 1 none; generation = 1; label_is_active = true })
      ∷ (record {
        event = label_at "e2" unlabeled 2 (some "e1");
        generation = 1;
        label_is_active = false;
      })
      ∷ (record {
        event = label_at "e3" labeled 3 (some "e2");
        generation = 2;
        label_is_active = true;
      })
      ∷ [];
  latest_generation = 2;
  label_is_active = true;
}

fold_authoritative_label_prefix_counts_example :
    (map (λ f. f.event) folded.events ≡ timeline)
    × (folded.latest_generation ≡ labeled_count timeline)
    × (labeled_count timeline ≡ unlabeled_count timeline + bit folded.label_is_active)
unfolding fold_authoritative_label_prefix fold_label_events check_label_event apply_label_action
fold_authoritative_label_prefix_counts_example =
    fold_authoritative_label_prefix_counts timeline folded refl

fold_authoritative_label_prefix_chain_example :
    SameLabel timeline
    × Numbered 1 timeline
    × Chained none timeline
    × Distinct timeline
    × Ordered timeline
unfolding fold_authoritative_label_prefix fold_label_events check_label_event apply_label_action
fold_authoritative_label_prefix_chain_example =
    fold_authoritative_label_prefix_chain timeline folded refl

-- Texts that the comparison tells apart differ.
differ : (a b : String) → (a =t b) ≡ false → a ≢ b
differ a b h e = ground (arith, eq_iff a b)

timeline-Distinct : Distinct timeline
timeline-Distinct =
    ((differ "e1" "e2" refl, (differ "e1" "e3" refl, tt)), ((differ "e2" "e3" refl, tt), (tt, tt)))

timeline-Ordered : Ordered timeline
timeline-Ordered = ((omega arith, (omega arith, tt)), ((omega arith, tt), (tt, tt)))

fold_authoritative_label_prefix_complete_example :
    (p : AuthoritativeLabelPrefix) × (fold_authoritative_label_prefix timeline ≡ ok p)
fold_authoritative_label_prefix_complete_example =
    fold_authoritative_label_prefix_complete timeline
      ((refl, refl, refl), ((refl, refl, refl), ((refl, refl, refl), tt)))
      (refl, (refl, (refl, tt))) (refl, (refl, (refl, tt))) timeline-Distinct timeline-Ordered
      (refl, (refl, (refl, tt)))
