-- ===== src/Status/Phase/Success.antt =====
-- Whether reconcileStatus of controllers/argocd/status.go returns an error.
use argocd_operator.Base.{
  String, ◌≡◌, ◌≢◌, true, none, some, List, [], ◌∷◌, found, refused, listed, unlisted, Run, done,
  failed, panicked, ◌then_do◌, arith, string_eq,
}
use argocd_operator.Condition.{Condition}
use argocd_operator.Spec.{ArgoCd}
use argocd_operator.Status.{ArgoCdStatus, Snapshot, Route, StatefulSet}
use argocd_operator.Status.Phase.{reconcile_status, later_steps, reconcile_phase}
use argocd_operator.Status.Phase

-- The server refuses no read; where high availability is enabled, the stateful set of Redis has its
-- replicas; and the status of a route is nil or not empty.
pub record IsReadable (snapshot : Snapshot) (cr : ArgoCd) : Type 0 where
  pub deployments : (suffix e : String) → snapshot.deployment suffix ≢ refused e
  pub stateful_sets : (suffix e : String) → snapshot.stateful_set suffix ≢ refused e
  pub routes : (e : String) → snapshot.server_routes ≢ unlisted e
  pub ingresses : (e : String) → snapshot.server_ingress ≢ refused e
  pub replicas :
      (set : StatefulSet)
      → cr.ha_enabled ≡ true
      → snapshot.stateful_set "redis-ha-server" ≡ found set
      → set.replicas ≢ none
  pub first_route :
      (route : Route) (routes : List Route)
      → snapshot.server_routes ≡ listed (route ∷ routes)
      → route.ingress ≢ some []

then_do-done :
    {S : Type 0} (m : Run S) (f : S → Run S)
    → m.1 ≡ done
    → ((t : S) → (f t).1 ≡ done)
    → (m then_do f).1 ≡ done
unfolding ◌then_do◌
then_do-done (t, done) f h k = k t
then_do-done (t, failed e) f h k = absurd (ground arith)
then_do-done (t, panicked) f h k = absurd (ground arith)

module _ (snapshot : Snapshot) (cr : ArgoCd) (i : IsReadable snapshot cr) where
  controller-done : (s : ArgoCdStatus) → (Phase.controller_step snapshot cr s).1 ≡ done
  unfolding Phase.controller_step
  controller-done s = grind (arith, i.stateful_sets)

  sso-done :
      (s : ArgoCdStatus) (cs : List Condition) → (Phase.sso_step snapshot cr (s, cs)).1 ≡ done
  unfolding Phase.sso_step
  sso-done s cs = grind (arith, i.deployments)

  redis-done : (s : ArgoCdStatus) → (Phase.redis_step snapshot cr s).1 ≡ done
  unfolding Phase.redis_step
  redis-done s = grind (arith, i.deployments, i.stateful_sets, i.replicas)

  repo-done : (s : ArgoCdStatus) → (Phase.repo_step snapshot cr s).1 ≡ done
  unfolding Phase.repo_step
  repo-done s = grind (arith, i.deployments)

  server-done : (s : ArgoCdStatus) → (Phase.server_step snapshot cr s).1 ≡ done
  unfolding Phase.server_step
  server-done s = grind (arith, i.deployments)

  host-done : (s : ArgoCdStatus) → (Phase.host_step snapshot cr s).1 ≡ done
  unfolding Phase.host_step
  host-done s = grind (arith, i.routes, i.ingresses, i.first_route)

  notifications-done : (s : ArgoCdStatus) → (Phase.notifications_step snapshot cr s).1 ≡ done
  unfolding Phase.notifications_step
  notifications-done s = grind (arith, i.deployments)

  application_set-done : (s : ArgoCdStatus) → (Phase.application_set_step snapshot cr s).1 ≡ done
  unfolding Phase.application_set_step
  application_set-done s = grind (arith, i.deployments)

  phase-done : (s : ArgoCdStatus) → (Phase.phase_step snapshot cr s).1 ≡ done
  unfolding Phase.phase_step reconcile_phase
  phase-done s = ground arith

  later-done : (s : ArgoCdStatus) → (later_steps snapshot cr s).1 ≡ done
  unfolding later_steps
  later-done s =
      then_do-done _ _
        (then_do-done _ _
          (then_do-done _ _
            (then_do-done _ _
              (then_do-done _ _ (then_do-done _ _ (redis-done s) repo-done) server-done) host-done)
            notifications-done)
          application_set-done)
        phase-done

  -- Where the server refuses no read, Redis with high availability has its replicas, and the first
  -- route's status is nil or not empty, reconcileStatus returns no error and does not panic.
  pub reconcile_status-done :
      (s : ArgoCdStatus) (conditions : List Condition)
      → (reconcile_status snapshot cr (s, conditions)).1 ≡ done
  unfolding reconcile_status
  reconcile_status-done s conditions =
      then_do-done _ _ (then_do-done _ _ (controller-done s) (λ (t, cs). sso-done t cs))
        (λ (t, cs). later-done t)
