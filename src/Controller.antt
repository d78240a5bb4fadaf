-- ===== src/Controller.antt =====
-- The main reconciliation loop: Reconcile and internalReconcile of
-- controllers/argocd/argocd_controller.go, updateStatusAndConditionsOfArgoCD and the finalizer of
-- controllers/argocd/util.go, and the metrics of controllers/argocd/metrics.go. This file has the
-- resource and what the loop keeps between its runs.
pub mod Metrics
pub mod Internal
pub mod Reconcile
use argocd_operator.Base.{
  ℕ, String, Bool, true, false, ◌||◌, ◌==◌, string_eq, ◌⊎◌, if◌then◌else◌, Option, none, some, List,
  [], ◌∷◌, ℤ, Reply, Run,
}
use argocd_operator.Base.Map.{Map}
use argocd_operator.Condition.{Condition}
use argocd_operator.Spec.{ArgoCd}
use argocd_operator.Status.{ArgoCdStatus, Snapshot}
use argocd_operator.LocalUsers.Timers.{Timers}
use argocd_operator.Api.Parts.{ManagedNamespaces}
use argocd_operator.Namespaces.{Instance, Error, Cluster, Setup}

abbrev pub deletion_finalizer : String
deletion_finalizer = "argoproj.io/finalizer"

-- The ArgoCD resource, as far as the loop reads and writes it; `is_deleted` says that the deletion
-- timestamp is set.
pub record Resource : Type 0 where
  pub spec : ArgoCd
  pub namespace_management : Option (List ManagedNamespaces)
  pub labels : Map String String
  pub finalizers : List String
  pub is_deleted : Bool
  pub status : ArgoCdStatus
  pub conditions : List Condition

abbrev pub instance_of : Resource → Instance
instance_of r = record {
  name = r.spec.name;
  namespace = r.spec.namespace;
  namespace_management = r.namespace_management;
}

-- IsDeletionFinalizerPresent
abbrev pub has_finalizer : List String → Bool
has_finalizer [] = false
has_finalizer (f ∷ fs) = f == deletion_finalizer || has_finalizer fs

-- removeString
unfoldable pub remove_string : String → List String → List String
remove_string s [] = []
remove_string s (x ∷ xs) = let rest = remove_string s xs in if x == s then rest else x ∷ rest

-- The variables of the package: ActiveInstanceMap, and the gauges and the counter of metrics.go.
pub record Counts : Type 0 where
  pub active : Map String String
  pub by_phase : Map String ℤ
  pub total : ℤ
  pub reconciliations : Map String ℕ

-- The server, with what it answers on ArgoCD resources; the label selector, which may not parse, and
-- whether it matches some labels; and the parts of the operator that the loop
-- calls and that are not modelled here, each with the server's next state and its error.
pub record Parts : Type 1 where
  pub cluster : Cluster
  pub get_argocd : cluster.State → String → String → Reply Resource
  pub update_argocd : cluster.State → Resource → cluster.State × Error
  pub update_argocd_status : cluster.State → Resource → cluster.State × Error
  pub snapshot : cluster.State → Resource → Snapshot
  pub label_selector : String
  pub selects : Map String String → String ⊎ Bool
  pub remove_label_on_deletion : Bool
  pub delete_cluster_resources : Resource → cluster.State → Run cluster.State
  pub remove_source_namespaces : Resource → cluster.State → Run cluster.State
  pub remove_application_set_namespaces : Resource → cluster.State → Run cluster.State
  pub remove_notifications_namespaces : Resource → cluster.State → Run cluster.State
  pub restore_tracking_labels : Resource → cluster.State → Run cluster.State
  pub set_source_namespaces : Resource → cluster.State → Run cluster.State
  pub set_application_set_namespaces : Resource → cluster.State → Run cluster.State
  pub set_notifications_namespaces : Resource → cluster.State → Run cluster.State
  pub reconcile_resources :
      Resource → ArgoCdStatus → cluster.State → (cluster.State × Resource × ArgoCdStatus) × Error
  pub setup : Setup

-- What the loop keeps: the server, the names of r.ManagedNamespaces, the timers, the counts, and the
-- tracker of the deprecation events as the namespaces in it.
pub record World (p : Parts) : Type 0 where
  pub server : p.cluster.State
  pub managed : List String
  pub timers : Timers
  pub counts : Counts
  pub events : Map String Bool
