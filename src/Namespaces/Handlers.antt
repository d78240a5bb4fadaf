-- ===== src/Namespaces/Handlers.antt =====
-- The filters of the watches: handleArgoCDNamespaceManagementUpdate, handleNamespaceManagementUpdate,
-- handleNamespaceManagementDelete and cleanupRBACsForNamespaceManagement of controllers/argocd/util.go.
-- Each gives the server's next state and whether the event is to be reconciled. Also
-- removeManagedByLabelFromNamespaces.
use argocd_operator.Base.{
  String, Bool, true, false, not, ◌&&◌, ◌||◌, ◌==◌, string_eq, if◌then◌else◌, Option, none, some,
  inl, inr, List, [], ◌∷◌, ◌++◌, listed, unlisted, Run, done, failed, panicked, ◌then_do◌,
}
use argocd_operator.Base.Map.{Map, lookup, erase}
use argocd_operator.Api.Parts.{ManagedNamespaces}
use argocd_operator.Namespaces.{Instance, entries, NamespaceManagement, Cluster, Setup}
use argocd_operator.Namespaces.ClusterSecret.{delete_managed_namespace}
use argocd_operator.Namespaces.Removed.{namespaces_to_delete}
use argocd_operator.Namespaces.Manage.{managed_by_label, delete_rbacs}

-- `value, ok := labels[...]; ok && value == owner`
unfoldable pub is_labelled : String → Map String String → Bool
unfolding lookup
is_labelled owner labels = elim (lookup managed_by_label labels) [
  | none ↦ false
  | some v ↦ v == owner
]

abbrev same_entry : ManagedNamespaces → ManagedNamespaces → Bool
same_entry d e =
    d.name == e.name && (if d.allow_managed_by then e.allow_managed_by else not e.allow_managed_by)

abbrev same_entries : List ManagedNamespaces → List ManagedNamespaces → Bool
same_entries [] [] = true
same_entries [] (e ∷ es) = false
same_entries (d ∷ ds) [] = false
same_entries (d ∷ ds) (e ∷ es) = same_entry d e && same_entries ds es

-- reflect.DeepEqual, which tells nil from an empty list
abbrev pub same_list : Option (List ManagedNamespaces) → Option (List ManagedNamespaces) → Bool
same_list none none = true
same_list none (some es) = false
same_list (some ds) none = false
same_list (some ds) (some es) = same_entries ds es

module _ (c : Cluster) (u : Setup) where
  unfoldable pub cleanup_rbacs : String → String → c.State → Run c.State
  unfolding delete_rbacs delete_managed_namespace ◌then_do◌
  cleanup_rbacs owner namespace s =
      delete_rbacs c namespace s then_do (λ t. delete_managed_namespace c u t owner namespace)

  -- `if err := ...; err != nil { return false }; return b`
  abbrev answer : Bool → Run c.State → c.State × Bool
  answer b (s, done) = (s, b)
  answer b (s, failed e) = (s, false)
  answer b (s, panicked) = (s, false)

  -- The loop over the namespaces that are to be cleaned up.
  unfoldable pub cleanup_each : String → List String → c.State → Run c.State
  unfolding is_labelled cleanup_rbacs ◌then_do◌
  cleanup_each owner [] s = (s, done)
  cleanup_each owner (n ∷ ns) s = elim (c.namespace_labels s n) [
    | inl e ↦ cleanup_each owner ns s
    | inr labels ↦
        if is_labelled owner labels
        then cleanup_each owner ns s
        else cleanup_rbacs owner n s then_do cleanup_each owner ns
  ]

  unfoldable pub handle_argocd_update : Instance → Instance → c.State → c.State × Bool
  unfolding cleanup_each namespaces_to_delete
  handle_argocd_update new old s =
      if same_list old.namespace_management new.namespace_management
      then (s, true)
      else elim (c.namespace_names s) [
        | unlisted e ↦ (s, false)
        | listed all ↦ answer true (
            cleanup_each old.namespace
              (namespaces_to_delete u.matches (entries old.namespace_management)
                (entries new.namespace_management) all)
              s)
      ]

  unfoldable pub handle_management_update :
      NamespaceManagement → NamespaceManagement → c.State → c.State × Bool
  unfolding is_labelled cleanup_rbacs
  handle_management_update old new s = elim (c.namespace_labels s old.managed_by) [
    | inl e ↦ (s, false)
    | inr labels ↦
        if is_labelled old.managed_by labels || old.managed_by == new.managed_by
        then (s, false)
        else answer true (cleanup_rbacs old.managed_by old.namespace s)
  ]

  unfoldable pub handle_management_delete : NamespaceManagement → c.State → c.State × Bool
  unfolding is_labelled cleanup_rbacs
  handle_management_delete m s = elim (c.namespace_labels s m.managed_by) [
    | inl e ↦ (s, false)
    | inr labels ↦
        if is_labelled m.managed_by labels || m.managed_by == ""
        then (s, false)
        else answer false (cleanup_rbacs m.managed_by m.namespace s)
  ]

  -- The loop of removeManagedByLabelFromNamespaces: a failing update is only logged.
  unfoldable pub unlabel_each : String → List String → c.State → Run c.State
  unfolding is_labelled erase
  unlabel_each owner [] s = (s, done)
  unlabel_each owner (n ∷ ns) s = elim (c.namespace_labels s n) [
    | inl e ↦ (s, failed e)
    | inr labels ↦
        if is_labelled owner labels
        then unlabel_each owner ns (c.update_namespace s n (erase managed_by_label labels)).0
        else unlabel_each owner ns s
  ]

  unfoldable pub remove_managed_by_labels : String → c.State → Run c.State
  unfolding unlabel_each
  remove_managed_by_labels owner s = elim (c.managed_namespaces s owner) [
    | unlisted e ↦ (s, failed e)
    | listed ns ↦ unlabel_each owner (ns ++ (owner ∷ [])) s
  ]
