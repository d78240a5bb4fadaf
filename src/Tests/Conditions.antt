-- ===== src/Tests/Conditions.antt =====
-- Operations on conditions.
use argocd_operator.Base.{◌≡◌, some, List, [], ◌∷◌, string_eq}
use argocd_operator.Condition.{Condition, insert_or_update, create_condition}
use argocd_operator.Condition.Laws.{content, content_of, content_of-insert_or_update}

abbrev other : Condition
other = record {
  type = "Other";
  status = "True";
  observed_generation = 1;
  last_transition_time = 5;
  reason = "R";
  message = "m";
}

abbrev before : List Condition
before = other ∷ record other { type = "Reconciled" } ∷ []

content_of-insert_or_update_example :
    content_of "Other" (insert_or_update (create_condition "broken") 9 before).1
    ≡ some (content other)
unfolding create_condition string_eq
content_of-insert_or_update_example =
    content_of-insert_or_update "Other" (create_condition "broken") 9 before
