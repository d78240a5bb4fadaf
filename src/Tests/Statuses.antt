-- ===== src/Tests/Statuses.antt =====
-- The status and the single sign-on check of an instance.
use argocd_operator.Base.{
  String, ◌≡◌, refl, ◌↔◌, Bool, true, false, Option, none, some, [], found, absent, listed, Outcome,
  done, failed, panicked, arith,
}
use argocd_operator.Spec.{ArgoCd, Sso}
use argocd_operator.Sso.{reconcile_sso}
use argocd_operator.Sso.Laws.{IsLegal, reconcile_sso-done_iff, reconcile_sso_outcome}
use argocd_operator.Status.{ArgoCdStatus, Snapshot, Deployment}
use argocd_operator.Status.Components.{
  reconcile_application_controller, reconcile_application_set_controller, reconcile_redis,
  reconcile_repo, reconcile_server,
}
use argocd_operator.Status.Bounds.{
  IsReady, IsReadySet, IsNilReplicas, components-running_iff, reconcile_redis-panicked_iff,
}
use argocd_operator.Status.Phase
use argocd_operator.Status.Phase.{reconcile_phase, reconcile_status}
use argocd_operator.Status.Phase.Keeps.{Keeps, reconcile_status-Keeps}
use argocd_operator.Status.Phase.Success.{IsReadable, reconcile_status-done}
use argocd_operator.Status.Phase.Laws.{MainFiveUp, reconcile_phase-available_iff}

abbrev cr : Option Sso → Bool → ArgoCd
cr sso ha = record {
  name = "argocd";
  namespace = "ns";
  controller_enabled = none;
  redis_enabled = none;
  redis_remote = none;
  repo_enabled = none;
  server_enabled = some false;
  sso = sso;
  ha_enabled = ha;
  notifications_enabled = false;
  server_route_enabled = false;
  server_ingress_enabled = false;
  extra_config = [];
  local_users = [];
}

abbrev status : String → ArgoCdStatus
status s = record {
  application_controller = s;
  application_set_controller = "";
  sso = s;
  notifications_controller = "";
  phase = "";
  redis = s;
  repo = s;
  server = s;
  host = "";
}

abbrev ready : Deployment
ready = record { replicas = some 1; ready_replicas = 1; conditions = [] }

-- The stateful set of Redis leaves its replicas nil.
abbrev snapshot : Snapshot
snapshot = record {
  deployment = λ suffix. found ready;
  stateful_set = λ suffix. found (record { replicas = none; ready_replicas = 1 });
  server_routes = listed [];
  server_ingress = absent;
  route_api_available = false;
}

abbrev bad_sso : Sso
bad_sso = record { provider = "keycloak"; dex = none; keycloak = none }

abbrev dex_sso : Sso
dex_sso = record {
  provider = "dex";
  dex = some (record { config = ""; open_shift_oauth = true });
  keycloak = none;
}

abbrev resources_done : ArgoCd → Outcome
resources_done cr = done

reconcile_phase-available_iff_example :
    (((reconcile_phase (cr none false) (status "Running")).0.phase ≡ "Available")
      ↔ MainFiveUp (cr none false) (status "Running"))
    × ((reconcile_phase (cr none false) (record (status "Running") {
      application_set_controller = "Failed";
      notifications_controller = "Pending";
    })).0.phase
        ≡ (reconcile_phase (cr none false) (status "Running")).0.phase)
reconcile_phase-available_iff_example =
    reconcile_phase-available_iff (cr none false) (status "Running") "Failed" "Pending"

reconcile_status-Keeps_example :
    Keeps (status "Running") (reconcile_status snapshot (cr none true) (status "Running", [])).0.0
reconcile_status-Keeps_example =
    reconcile_status-Keeps snapshot (cr none true) (status "Running") []

components-running_iff_example :
    (((reconcile_application_controller snapshot
          (cr none true)
          (status "")).0.application_controller
        ≡ "Running")
      ↔ IsReadySet (snapshot.stateful_set "application-controller"))
    × (((reconcile_repo snapshot (cr none true) (status "")).0.repo ≡ "Running")
        ↔ IsReady (snapshot.deployment "repo-server"))
    × (((reconcile_server snapshot (cr none true) (status "")).0.server ≡ "Running")
        ↔ IsReady (snapshot.deployment "server"))
    × (((reconcile_application_set_controller snapshot
            (cr none true)
            (status "")).0.application_set_controller
          ≡ "Running")
        ↔ IsReady (snapshot.deployment "applicationset-controller"))
components-running_iff_example = components-running_iff snapshot (cr none true) (status "")

reconcile_redis-panicked_iff_example :
    ((reconcile_redis snapshot (cr none true) (status "")).1 ≡ panicked)
    ↔ ((true ≡ true) × IsNilReplicas (snapshot.stateful_set "redis-ha-server"))
reconcile_redis-panicked_iff_example =
    reconcile_redis-panicked_iff snapshot (cr none true) (status "")

reconcile_sso-done_iff_example :
    ((reconcile_sso resources_done (cr (some dex_sso) false) "Running").1 ≡ done)
    ↔ IsLegal (some dex_sso)
reconcile_sso-done_iff_example =
    reconcile_sso-done_iff resources_done (cr (some dex_sso) false) "Running" refl

reconcile_sso_outcome_example :
    (reconcile_sso resources_done (cr (some bad_sso) false) "Running").0
    ≡ elim (reconcile_sso resources_done (cr (some bad_sso) false) "Running").1 [
      | failed e ↦ "Failed"
      | done ↦ "Running"
      | panicked ↦ "Running"
    ]
reconcile_sso_outcome_example =
    reconcile_sso_outcome resources_done (cr (some bad_sso) false) "Running"

snapshot-IsReadable : IsReadable snapshot (cr none false)
snapshot-IsReadable = record {
  deployments = λ suffix e h. ground arith;
  stateful_sets = λ suffix e h. ground arith;
  routes = λ e h. ground arith;
  ingresses = λ e h. ground arith;
  replicas = λ set h k. ground arith;
  first_route = λ route routes h. ground arith;
}

reconcile_status-done_example : (reconcile_status snapshot (cr none false) (status "", [])).1 ≡ done
reconcile_status-done_example =
    reconcile_status-done snapshot (cr none false) snapshot-IsReadable (status "") []
