-- ===== src/Sources/Restore.antt =====
-- restoreTrackingLabelsForOrphanedNamespaces of controllers/argocd/argocd_controller.go and its helpers.
use argocd_operator.Base.{
  String, Bool, true, false, not, ◌&&◌, ◌||◌, ◌==◌, contains, string_eq, if◌then◌else◌, none, some,
  List, [], ◌∷◌, found, absent, refused, listed, unlisted, Run, failed,
}
use argocd_operator.Base.Map.{Map, lookup, insert}
use argocd_operator.Namespaces.{Error, ended}
use argocd_operator.Mappers.{application_set_label}
use argocd_operator.Sources.{
  managed_by_cluster_label, Instance, Rule, Role, Server, role_name, application_set_name,
}

abbrev is_tracked_resource : String → Bool
is_tracked_resource r =
    r == "applications"
    || r == "applications/status"
    || r == "applicationsets"
    || r == "applicationsets/status"

abbrev any_tracked : List String → Bool
any_tracked [] = false
any_tracked (r ∷ rs) = is_tracked_resource r || any_tracked rs

unfoldable pub has_application_scoped_rules : List Rule → Bool
has_application_scoped_rules [] = false
has_application_scoped_rules (r ∷ rs) =
    (contains r.api_groups "argoproj.io" && (contains r.resources "*" || any_tracked r.resources))
    || has_application_scoped_rules rs

unfoldable pub is_orphaned_role : Instance → Role → Bool
unfolding has_application_scoped_rules
is_orphaned_role cr r =
    (r.name == application_set_name cr || r.name == role_name r.namespace cr)
    && has_application_scoped_rules r.rules

-- requiredTrackingLabelsForRole
unfoldable pub required_labels : Instance → Role → Map String String
required_labels cr r =
    let by_role =
      if r.name == role_name r.namespace cr
      then (managed_by_cluster_label, cr.namespace) ∷ []
      else [] in
    if r.name == application_set_name cr
    then (application_set_label, cr.namespace) ∷ by_role
    else by_role

-- addMissingLabels: whether the labels changed, and the labels.
unfoldable pub add_missing_labels : Map String String → Map String String → Bool × Map String String
unfolding lookup insert
add_missing_labels [] labels = (false, labels)
add_missing_labels ((k, v) ∷ required) labels = elim (lookup k labels) [
  | some _ ↦ add_missing_labels required labels
  | none ↦ (true, (add_missing_labels required (insert k v labels)).1)
]

abbrev is_empty : Map String String → Bool
is_empty [] = true
is_empty (_ ∷ _) = false

module _ (c : Server) where
  -- The body of the loop of restoreTrackingLabelsForOrphanedNamespaces, with the errors so far.
  unfoldable pub restore_labels : Instance → Role → c.State × Error → c.State × Error
  unfolding is_orphaned_role required_labels add_missing_labels
  restore_labels cr r (s, errors) =
      if r.namespace == cr.namespace
        || not (is_orphaned_role cr r)
        || is_empty (required_labels cr r)
      then (s, errors)
      else elim (c.get_namespace s r.namespace) [
        | absent ↦ (s, errors)
        | refused e ↦ (s, c.joined errors e)
        | found labels ↦
            let (changed, new) = add_missing_labels (required_labels cr r) labels in
            let (t, e) = c.update_namespace s r.namespace new in
            if changed
            then (t, elim e [ none ↦ errors | some m ↦ c.joined errors m ])
            else (s, errors)
      ]

  unfoldable pub restore_each : Instance → List Role → c.State × Error → c.State × Error
  unfolding restore_labels
  restore_each cr [] t = t
  restore_each cr (r ∷ rs) t = restore_each cr rs (restore_labels cr r t)

  unfoldable pub restore_tracking_labels : Instance → c.State → Run c.State
  unfolding restore_each
  restore_tracking_labels cr s = elim (c.roles_of s cr.name) [
    | unlisted e ↦ (s, failed e)
    | listed rs ↦ let (t, e) = restore_each cr rs (s, none) in (t, ended e)
  ]
