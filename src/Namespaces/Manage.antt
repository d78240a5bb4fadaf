-- ===== src/Namespaces/Manage.antt =====
-- setManagedNamespaces, deleteRBACsForNamespace and updateStatusConditionOfNamespaceManagement of
-- controllers/argocd/util.go, and reconcileNamespaceManagement and disableNamespaceManagement of
-- controllers/argocd/namespaceManagement.go. Of `r.ManagedNamespaces` the names are kept.
pub mod Laws
use argocd_operator.Base.{
  String, ◌<>◌, Bool, true, false, not, ◌&&◌, ◌||◌, ◌==◌, contains, string_eq, if◌then◌else◌,
  Option, none, some, inl, inr, List, [], ◌∷◌, ◌++◌, map, Listing, listed, unlisted, Run, done,
  failed, Outcome, found, absent, refused, ◌then_do◌,
}
use argocd_operator.Base.Commas.{join}
use argocd_operator.Base.Map.{lookup}
use argocd_operator.Condition.{Condition, insert_or_update, create_condition}
use argocd_operator.Api.Parts.{ManagedNamespaces}
use argocd_operator.LocalUsers.Cluster.{value}
use argocd_operator.Namespaces.{
  Instance, entries, NamespaceManagement, Error, ended, Cluster, Setup, allowed_patterns,
}
use argocd_operator.Namespaces.ClusterSecret.{targeting, delete_managed_namespace}

abbrev pub managed_by_label : String
managed_by_label = "argocd.argoproj.io/managed-by"

-- A status update that is to be made, with the message of its condition.
pub record Update : Type 0 where
  pub management : NamespaceManagement
  pub message : String

abbrev not_permitted : String → String → String
not_permitted namespace instance_namespace =
    "Namespace " <> namespace <> " is not permitted for management by ArgoCD instance "
    <> instance_namespace <> " based on NamespaceManagement rules"

abbrev pub is_forbidden : Setup → List String → String → NamespaceManagement → Bool
is_forbidden u patterns namespace m =
    m.managed_by == namespace && not (u.matches patterns m.namespace)

-- The loop over the resources: the messages of the errors, and the updates, of which a resource that is
-- not permitted has two.
unfoldable pub forbidden_messages :
    Setup → List String → String → List NamespaceManagement → List String
forbidden_messages u patterns namespace [] = []
forbidden_messages u patterns namespace (m ∷ ms) =
    let rest = forbidden_messages u patterns namespace ms in
    if is_forbidden u patterns namespace m then not_permitted m.namespace namespace ∷ rest else rest

unfoldable pub status_updates :
    Setup → List String → String → List NamespaceManagement → List Update
status_updates u patterns namespace [] = []
status_updates u patterns namespace (m ∷ ms) =
    let rest = status_updates u patterns namespace ms in
    let refusal : Update = record {
      management = m;
      message = not_permitted m.namespace namespace;
    } in
    if m.managed_by == namespace
    then (if u.matches patterns m.namespace
        then record { management = m; message = "" } ∷ rest
        else refusal ∷ refusal ∷ rest)
    else rest

-- The loop that appends the names that are not there.
unfoldable pub append_new : List String → List String → List String
append_new names [] = names
append_new names (n ∷ ns) = append_new (if contains names n then names else names ++ (n ∷ [])) ns

module _ (c : Cluster) where
  -- setManagedNamespaces
  unfoldable pub set_managed_namespaces :
      Instance → c.State × List String → Run (c.State × List String)
  set_managed_namespaces cr (s, managed) = elim (c.managed_namespaces s cr.namespace) [
    | unlisted e ↦ ((s, managed), failed e)
    | listed names ↦ ((s, names ++ (cr.namespace ∷ [])), done)
  ]

  -- The two loops of deleteRBACsForNamespace: an error is only logged.
  abbrev pub delete_roles : String → List String → c.State → c.State
  delete_roles namespace [] s = s
  delete_roles namespace (n ∷ ns) s = delete_roles namespace ns (c.delete_role s namespace n).0

  abbrev pub delete_role_bindings : String → List String → c.State → c.State
  delete_role_bindings namespace [] s = s
  delete_role_bindings namespace (n ∷ ns) s =
      delete_role_bindings namespace ns (c.delete_role_binding s namespace n).0

  abbrev delete_listed_bindings : String → c.State → Run c.State
  delete_listed_bindings namespace s = elim (c.role_bindings s namespace) [
    | unlisted e ↦
        (s, failed ("failed to list role bindings for namespace: " <> namespace <> " error: " <> e))
    | listed ns ↦ (delete_role_bindings namespace ns s, done)
  ]

  unfoldable pub delete_rbacs : String → c.State → Run c.State
  delete_rbacs namespace s = elim (c.roles s namespace) [
    | unlisted e ↦
        (s, failed ("failed to list roles for namespace: " <> namespace <> " error: " <> e))
    | listed ns ↦ delete_listed_bindings namespace (delete_roles namespace ns s)
  ]

  -- updateStatusConditionOfNamespaceManagement
  unfoldable pub update_status_condition :
      Condition → NamespaceManagement → c.State → c.State × Error
  unfolding insert_or_update
  update_status_condition condition m s =
      let (changed, conditions) = insert_or_update condition (c.now s) m.conditions in
      let updated : c.State × Error = elim (c.get_management s m.namespace m.name) [
        | absent ↦ (s, none)
        | refused e ↦ (s, some e)
        | found latest ↦ c.update_management s (record latest { conditions = conditions })
      ] in
      if changed then updated else (s, none)

  abbrev failure : Update → Error → List String → List String
  failure update none messages = messages
  failure update (some e) messages =
      ("status update failed for namespace " <> update.management.namespace <> ": " <> e) ∷ messages

  -- The loop over the updates, with the messages of those that fail.
  unfoldable pub run_updates : List Update → c.State → c.State × List String
  unfolding update_status_condition create_condition
  run_updates [] s = (s, [])
  run_updates (update ∷ updates) s =
      let (t, e) = update_status_condition (create_condition update.message) update.management s in
      let (last, messages) = run_updates updates t in (last, failure update e messages)

  abbrev pub summary : List String → Outcome
  summary [] = done
  summary (m ∷ ms) = failed ("namespace management errors: " <> join "; " (m ∷ ms))

  -- reconcileNamespaceManagement, after the list of the resources
  unfoldable pub manage_listed :
      Setup
      → Instance
      → List NamespaceManagement
      → c.State × List String
      → Run (c.State × List String)
  unfolding targeting allowed_patterns forbidden_messages status_updates append_new run_updates join
  manage_listed u cr ms (s, managed) =
      let patterns = allowed_patterns (entries cr.namespace_management) in
      let names = targeting u patterns cr.namespace ms ++ (cr.namespace ∷ []) in
      let (t, failures) = run_updates (status_updates u patterns cr.namespace ms) s in
      (
        (t, append_new managed names),
        summary (forbidden_messages u patterns cr.namespace ms ++ failures),
      )

  unfoldable pub reconcile_namespace_management :
      Setup → Instance → c.State × List String → Run (c.State × List String)
  unfolding manage_listed
  reconcile_namespace_management u cr (s, managed) = elim (c.namespace_managements s) [
    | unlisted e ↦ ((s, managed), failed ("failed to list NamespaceManagement resources: " <> e))
    | listed ms ↦ manage_listed u cr ms (s, managed)
  ]

  -- The body of the loop over the namespaces that a pattern matches, where the pattern allows them. The
  -- label is compared with the name of the namespace itself.
  unfoldable pub release_namespace : Setup → Instance → Bool → String → c.State → Run c.State
  unfolding lookup delete_rbacs delete_managed_namespace ◌then_do◌
  release_namespace u cr allowed name s = elim (c.namespace_labels s name) [
    | inl e ↦ (s, failed e)
    | inr labels ↦
        if value managed_by_label labels == name || not allowed
        then (s, done)
        else delete_rbacs name s then_do (λ t. delete_managed_namespace c u t cr.namespace name)
  ]

  unfoldable pub release_matching :
      Setup → Instance → ManagedNamespaces → List String → c.State → Run c.State
  unfolding release_namespace ◌then_do◌
  release_matching u cr e [] s = (s, done)
  release_matching u cr e (n ∷ ns) s =
      if u.matches (e.name ∷ []) n
      then release_namespace u cr e.allow_managed_by n s then_do release_matching u cr e ns
      else release_matching u cr e ns s

  unfoldable pub release_entries :
      Setup → Instance → List ManagedNamespaces → List String → c.State → Run c.State
  unfolding release_matching ◌then_do◌
  release_entries u cr [] names s = (s, done)
  release_entries u cr (e ∷ es) names s =
      release_matching u cr e names s then_do release_entries u cr es names

  -- The namespaces of the resources that target the instance.
  abbrev pub targeting_names : String → List NamespaceManagement → List String
  targeting_names namespace [] = []
  targeting_names namespace (m ∷ ms) =
      let rest = targeting_names namespace ms in
      if m.managed_by == namespace then m.namespace ∷ rest else rest

  unfoldable pub disable_namespace_management : Setup → Instance → c.State → Run c.State
  unfolding release_entries
  disable_namespace_management u cr s = elim (c.namespace_managements s) [
    | unlisted e ↦ (s, failed e)
    | listed ms ↦
        release_entries u cr (entries cr.namespace_management) (targeting_names cr.namespace ms) s
  ]

  -- The loop of internalReconcile over the resources, where the instance has no list of patterns.
  unfoldable pub release_targeting :
      Setup → Instance → List NamespaceManagement → c.State → Run c.State
  unfolding release_namespace ◌then_do◌
  release_targeting u cr [] s = (s, done)
  release_targeting u cr (m ∷ ms) s =
      if m.managed_by == cr.namespace
      then release_namespace u cr true m.namespace s then_do release_targeting u cr ms
      else release_targeting u cr ms s
