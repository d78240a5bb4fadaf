-- ===== src/Status/Phase/Keeps.antt =====
-- reconcileStatus leaves every field that was set before the call, except the host.
use argocd_operator.Base.{
  String, ◌≡◌, ◌⊎◌, string_eq, Run, done, failed, panicked, ◌then_do◌, arith, List,
}
use argocd_operator.Condition.{Condition}
use argocd_operator.Spec.{ArgoCd}
use argocd_operator.Status.{ArgoCdStatus, Snapshot}
use argocd_operator.Status.Phase.{reconcile_status, later_steps, beside}
use argocd_operator.Status.Phase

-- A field is empty before, or the same after.
abbrev Kept : String → String → Type 0
Kept a b = (a ≡ "") ⊎ (b ≡ a)

pub record Keeps (s t : ArgoCdStatus) : Type 0 where
  pub application_controller : Kept s.application_controller t.application_controller
  pub application_set_controller : Kept s.application_set_controller t.application_set_controller
  pub sso : Kept s.sso t.sso
  pub notifications_controller : Kept s.notifications_controller t.notifications_controller
  pub phase : Kept s.phase t.phase
  pub redis : Kept s.redis t.redis
  pub repo : Kept s.repo t.repo
  pub server : Kept s.server t.server

Keeps-trans : {s t u : ArgoCdStatus} → Keeps s t → Keeps t u → Keeps s u
Keeps-trans h k = ground arith

-- A sequence keeps what its two parts keep.
module _ {S : Type 0} (view : S → ArgoCdStatus) where
  Keeps-then_do :
      (s : ArgoCdStatus) (m : Run S) (f : S → Run S)
      → Keeps s (view m.0)
      → ((t : S) → Keeps (view t) (view (f t).0))
      → Keeps s (view (m then_do f).0)
  unfolding ◌then_do◌
  Keeps-then_do s (t, done) f h k = Keeps-trans h (k t)
  Keeps-then_do s (t, failed e) f h k = h
  Keeps-then_do s (t, panicked) f h k = h

module _ (snapshot : Snapshot) (cr : ArgoCd) where
  controller_step-Keeps : (s : ArgoCdStatus) → Keeps s (Phase.controller_step snapshot cr s).0
  unfolding Phase.controller_step
  controller_step-Keeps s = ground arith

  sso_step-Keeps :
      (s : ArgoCdStatus) (cs : List Condition) → Keeps s (Phase.sso_step snapshot cr (s, cs)).0.0
  unfolding Phase.sso_step
  sso_step-Keeps s cs = ground arith

  redis_step-Keeps : (s : ArgoCdStatus) → Keeps s (Phase.redis_step snapshot cr s).0
  unfolding Phase.redis_step
  redis_step-Keeps s = ground arith

  repo_step-Keeps : (s : ArgoCdStatus) → Keeps s (Phase.repo_step snapshot cr s).0
  unfolding Phase.repo_step
  repo_step-Keeps s = ground arith

  server_step-Keeps : (s : ArgoCdStatus) → Keeps s (Phase.server_step snapshot cr s).0
  unfolding Phase.server_step
  server_step-Keeps s = ground arith

  host_step-Keeps : (s : ArgoCdStatus) → Keeps s (Phase.host_step snapshot cr s).0
  unfolding Phase.host_step
  host_step-Keeps s = ground arith

  notifications_step-Keeps : (s : ArgoCdStatus) → Keeps s (Phase.notifications_step snapshot cr s).0
  unfolding Phase.notifications_step
  notifications_step-Keeps s = ground arith

  application_set_step-Keeps :
      (s : ArgoCdStatus) → Keeps s (Phase.application_set_step snapshot cr s).0
  unfolding Phase.application_set_step
  application_set_step-Keeps s = ground arith

  phase_step-Keeps : (s : ArgoCdStatus) → Keeps s (Phase.phase_step snapshot cr s).0
  unfolding Phase.phase_step
  phase_step-Keeps s = ground arith

  later_steps-Keeps : (s : ArgoCdStatus) → Keeps s (later_steps snapshot cr s).0
  unfolding later_steps
  later_steps-Keeps s =
      next _ _
        (next _ _
          (next _ _
            (next _ _ (next _ _ (next _ _ (redis_step-Keeps s) repo_step-Keeps) server_step-Keeps)
              host_step-Keeps)
            notifications_step-Keeps)
          application_set_step-Keeps)
        phase_step-Keeps
    where
      next :
          (m : Run ArgoCdStatus) (f : ArgoCdStatus → Run ArgoCdStatus)
          → Keeps s m.0
          → ((t : ArgoCdStatus) → Keeps t (f t).0)
          → Keeps s (m then_do f).0
      next m f = Keeps-then_do (λ t. t) s m f

  -- Whatever its outcome, reconcileStatus leaves each component's status and the phase as they were
  -- if they were not empty before the call.
  pub reconcile_status-Keeps :
      (s : ArgoCdStatus) (conditions : List Condition)
      → Keeps s (reconcile_status snapshot cr (s, conditions)).0.0
  unfolding reconcile_status
  reconcile_status-Keeps s conditions =
      Keeps-then_do (λ t. t.0) s _ _
        (Keeps-then_do (λ t. t.0) s _ _ (controller_step-Keeps s) (λ (t, cs). sso_step-Keeps t cs))
        (λ (t, cs). later_steps-Keeps t)
