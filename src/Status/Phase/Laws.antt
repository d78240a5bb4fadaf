-- ===== src/Status/Phase/Laws.antt =====
-- What the phase Available means after reconcileStatus.
use argocd_operator.Base.{
  String, ◌≡◌, refl, ◌≢◌, ◌⊎◌, Bool, true, false, ◌==◌, string_eq, if◌then◌else◌, Run, done, arith,
  ◌↔◌, Option, none, some,
}
use text.Mathlib.TextEquality.{eq_iff}
use argocd_operator.Condition.{Condition}
use argocd_operator.Spec.{ArgoCd, Sso, is_enabled}
use argocd_operator.Status.{ArgoCdStatus}
use argocd_operator.Status.Phase.{reconcile_phase, beside}
use argocd_operator.Status.Phase

-- A component is up if it runs, or if it is disabled and its object was not found.
abbrev pub IsUp : Bool → String → Type 0
IsUp enabled status = (status ≡ "Running") ⊎ (enabled ≡ false) × (status ≡ "Unknown")

-- A remote Redis that is enabled counts as up.
abbrev pub UsesRemote : ArgoCd → Type 0
UsesRemote cr =
    (is_enabled cr.redis_enabled ≡ true)
    × elim cr.redis_remote [ none ↦ ⊥ | some address ↦ address ≢ "" ]

-- `spec.sso` is set with a provider.
abbrev pub has_provider : Option Sso → Bool
has_provider none = false
has_provider (some sso) = if sso.provider == "" then false else true

-- The five components that reconcileStatusPhase reads.
pub record MainFiveUp (cr : ArgoCd) (s : ArgoCdStatus) : Type 0 where
  pub controller : IsUp (is_enabled cr.controller_enabled) s.application_controller
  pub redis : IsUp (is_enabled cr.redis_enabled) s.redis ⊎ UsesRemote cr
  pub repo : IsUp (is_enabled cr.repo_enabled) s.repo
  pub server : IsUp (is_enabled cr.server_enabled) s.server
  pub sso : IsUp (has_provider cr.sso) s.sso

available_iff : (e : Bool) (status : String) → (Phase.available e status ≡ true) ↔ IsUp e status
unfolding Phase.available
available_iff e status = ground (arith, eq_iff "Unknown" "Running")

main_five :
    (cr : ArgoCd) (s : ArgoCdStatus)
    → ((reconcile_phase cr s).0.phase ≡ "Available") ↔ MainFiveUp cr s
unfolding reconcile_phase Phase.all_available
main_five cr s = ground (
  arith,
  eq_iff "Pending" "Available",
  available_iff (is_enabled cr.controller_enabled) s.application_controller,
  available_iff (is_enabled cr.redis_enabled) s.redis,
  available_iff (is_enabled cr.repo_enabled) s.repo,
  available_iff (is_enabled cr.server_enabled) s.server,
  available_iff (has_provider cr.sso) s.sso,
)

-- The phase that reconcileStatusPhase sets is Available exactly when the application controller, Redis,
-- the repo server, the server and the single sign-on provider are up, where a remote Redis that is enabled
-- counts as up. The statuses of the ApplicationSet controller and of the notifications controller,
-- whatever they are, do not change it.
pub reconcile_phase-available_iff :
    (cr : ArgoCd) (s : ArgoCdStatus) (application_sets notifications : String)
    → (((reconcile_phase cr s).0.phase ≡ "Available") ↔ MainFiveUp cr s)
      × ((reconcile_phase cr (record s {
        application_set_controller = application_sets;
        notifications_controller = notifications;
      })).0.phase
          ≡ (reconcile_phase cr s).0.phase)
unfolding reconcile_phase Phase.all_available
reconcile_phase-available_iff cr s application_sets notifications = (main_five cr s, refl)

-- If a run ends with no error, its state satisfies P.
abbrev Ends : {S : Type 0} → (S → Type 0) → Run S → Type 0
Ends P m = m.1 ≡ done → P m.0

-- The phases that the steps before the last leave.
abbrev Undecided : ArgoCdStatus → Type 0
Undecided s = (s.phase ≡ "") ⊎ (s.phase ≡ "Pending")

abbrev pub Decided : ArgoCd → ArgoCdStatus → Type 0
Decided cr s = (s.phase ≡ "Available") × MainFiveUp cr s ⊎ (s.phase ≡ "Pending")
