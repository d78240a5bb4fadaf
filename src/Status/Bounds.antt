-- ===== src/Status/Bounds.antt =====
-- What one component's status says of its object.
use argocd_operator.Base.{
  ◌≡◌, ◌↔◌, true, string_eq, ℕ_eq, none, some, Reply, found, absent, refused, panicked, arith,
}
use text.Mathlib.TextEquality.{eq_iff}
use argocd_operator.Spec.{ArgoCd}
use argocd_operator.Status.{ArgoCdStatus, Deployment, StatefulSet, Snapshot}
use argocd_operator.Status.Components.{
  deployment_status, reconcile_application_controller, reconcile_application_set_controller,
  reconcile_redis, reconcile_repo, reconcile_server,
}

-- The object exists and all the replicas that it wants are ready.
abbrev pub IsReady : Reply Deployment → Type 0
IsReady (found d) = d.replicas ≡ some d.ready_replicas
IsReady absent = ⊥
IsReady (refused e) = ⊥

abbrev pub IsReadySet : Reply StatefulSet → Type 0
IsReadySet (found d) = d.replicas ≡ some d.ready_replicas
IsReadySet absent = ⊥
IsReadySet (refused e) = ⊥

abbrev pub IsNilReplicas : Reply StatefulSet → Type 0
IsNilReplicas (found d) = d.replicas ≡ none
IsNilReplicas absent = ⊥
IsNilReplicas (refused e) = ⊥

-- A deployment is Running exactly when all the replicas that it wants are ready.
pub deployment_status-running_iff :
    (d : Deployment) → (deployment_status d ≡ "Running") ↔ (d.replicas ≡ some d.ready_replicas)
deployment_status-running_iff d =
    ground (arith, eq_iff "Pending" "Running", eq_iff "Failed" "Running")

module _ (snapshot : Snapshot) (cr : ArgoCd) (s : ArgoCdStatus) where
  -- The controller, the repo server, the server and the ApplicationSet controller are Running exactly
  -- when their objects exist with all replicas ready.
  pub components-running_iff :
      (((reconcile_application_controller snapshot cr s).0.application_controller ≡ "Running")
        ↔ IsReadySet (snapshot.stateful_set "application-controller"))
      × (((reconcile_repo snapshot cr s).0.repo ≡ "Running")
          ↔ IsReady (snapshot.deployment "repo-server"))
      × (((reconcile_server snapshot cr s).0.server ≡ "Running")
          ↔ IsReady (snapshot.deployment "server"))
      × (((reconcile_application_set_controller snapshot cr s).0.application_set_controller
            ≡ "Running")
          ↔ IsReady (snapshot.deployment "applicationset-controller"))
  unfolding reconcile_application_controller reconcile_repo reconcile_server
      reconcile_application_set_controller
  components-running_iff = (
    ground
        (arith, eq_iff "Pending" "Running", eq_iff "Failed" "Running", eq_iff "Unknown" "Running"),
    ground
        (arith, eq_iff "Pending" "Running", eq_iff "Failed" "Running", eq_iff "Unknown" "Running"),
    ground
        (arith, eq_iff "Pending" "Running", eq_iff "Failed" "Running", eq_iff "Unknown" "Running"),
    ground
        (arith, eq_iff "Pending" "Running", eq_iff "Failed" "Running", eq_iff "Unknown" "Running"),
  )

  -- The Redis status panics exactly where high availability is enabled and the stateful set leaves
  -- its replicas nil.
  pub reconcile_redis-panicked_iff :
      ((reconcile_redis snapshot cr s).1 ≡ panicked)
      ↔ ((cr.ha_enabled ≡ true) × IsNilReplicas (snapshot.stateful_set "redis-ha-server"))
  unfolding reconcile_redis
  reconcile_redis-panicked_iff = ground arith
