-- ===== src/Status/Phase.antt =====
-- reconcileStatusPhase and reconcileStatus, which calls the functions of Components and Host in
-- order, each only where its field is still empty.
pub mod Keeps
pub mod Laws
pub mod Success
use argocd_operator.Base.{
  String, Bool, true, false, not, ◌&&◌, ◌||◌, ◌==◌, string_eq, if◌then◌else◌, List, Run, done,
  ◌then_do◌,
}
use argocd_operator.Condition.{Condition}
use argocd_operator.Spec.{ArgoCd, is_enabled, is_remote, sso_is_enabled}
use argocd_operator.Status.{ArgoCdStatus, Snapshot}
use argocd_operator.Status.Components.{
  reconcile_application_controller, reconcile_application_set_controller, reconcile_sso_status,
  reconcile_redis, reconcile_repo, reconcile_server, reconcile_notifications,
}
use argocd_operator.Status.Host.{reconcile_host}

-- `!IsEnabled() && status == "Unknown" || status == "Running"`
unfoldable pub available : Bool → String → Bool
available enabled status = (not enabled && status == "Unknown") || status == "Running"

unfoldable pub all_available : ArgoCd → ArgoCdStatus → Bool
all_available cr s =
    available (is_enabled cr.controller_enabled) s.application_controller
    && (available (is_enabled cr.redis_enabled) s.redis
        || (is_enabled cr.redis_enabled && is_remote cr.redis_remote))
    && available (is_enabled cr.repo_enabled) s.repo
    && available (is_enabled cr.server_enabled) s.server
    && available (sso_is_enabled cr.sso) s.sso

unfoldable pub reconcile_phase : ArgoCd → ArgoCdStatus → Run ArgoCdStatus
reconcile_phase cr s =
    (record s { phase = if all_available cr s then "Available" else "Pending" }, done)

-- `if status == "" { if err := f(); err != nil { return err } }`
abbrev pub if_empty : String → Run ArgoCdStatus → ArgoCdStatus → Run ArgoCdStatus
if_empty status run s = if status == "" then run else (s, done)

-- A function that leaves `cr.Status.Conditions` alone.
abbrev pub beside :
    (ArgoCdStatus → Run ArgoCdStatus)
    → ArgoCdStatus × List Condition
    → Run (ArgoCdStatus × List Condition)
beside f (s, conditions) = let (s', outcome) = f s in ((s', conditions), outcome)

module _ (snapshot : Snapshot) (cr : ArgoCd) where
  unfoldable pub sso_step : ArgoCdStatus × List Condition → Run (ArgoCdStatus × List Condition)
  unfolding reconcile_sso_status
  sso_step (s, conditions) =
      if s.sso == ""
      then reconcile_sso_status snapshot cr (s, conditions)
      else ((s, conditions), done)

  unfoldable pub controller_step : ArgoCdStatus → Run ArgoCdStatus
  unfolding reconcile_application_controller
  controller_step s =
      if_empty s.application_controller (reconcile_application_controller snapshot cr s) s

  unfoldable pub redis_step : ArgoCdStatus → Run ArgoCdStatus
  unfolding reconcile_redis
  redis_step s = if_empty s.redis (reconcile_redis snapshot cr s) s

  unfoldable pub repo_step : ArgoCdStatus → Run ArgoCdStatus
  unfolding reconcile_repo
  repo_step s = if_empty s.repo (reconcile_repo snapshot cr s) s

  unfoldable pub server_step : ArgoCdStatus → Run ArgoCdStatus
  unfolding reconcile_server
  server_step s = if_empty s.server (reconcile_server snapshot cr s) s

  unfoldable pub host_step : ArgoCdStatus → Run ArgoCdStatus
  unfolding reconcile_host
  host_step s = if_empty s.phase (reconcile_host snapshot cr s) s

  unfoldable pub notifications_step : ArgoCdStatus → Run ArgoCdStatus
  unfolding reconcile_notifications
  notifications_step s =
      if_empty s.notifications_controller (reconcile_notifications snapshot cr s) s

  unfoldable pub application_set_step : ArgoCdStatus → Run ArgoCdStatus
  unfolding reconcile_application_set_controller
  application_set_step s =
      if_empty s.application_set_controller (reconcile_application_set_controller snapshot cr s) s

  unfoldable pub phase_step : ArgoCdStatus → Run ArgoCdStatus
  unfolding reconcile_phase
  phase_step s = if_empty s.phase (reconcile_phase cr s) s

  -- The calls that follow the single sign-on status.
  unfoldable pub later_steps : ArgoCdStatus → Run ArgoCdStatus
  unfolding redis_step repo_step server_step host_step notifications_step application_set_step
      phase_step
  later_steps s =
      redis_step s
      then_do repo_step
      then_do server_step
      then_do host_step
      then_do notifications_step
      then_do application_set_step
      then_do phase_step

  unfoldable pub reconcile_status :
      ArgoCdStatus × List Condition → Run (ArgoCdStatus × List Condition)
  unfolding controller_step sso_step later_steps
  reconcile_status s = beside controller_step s then_do sso_step then_do beside later_steps
