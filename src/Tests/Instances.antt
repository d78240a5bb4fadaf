-- ===== src/Tests/Instances.antt =====
-- The main loop, over a cluster in memory that keeps the last ArgoCD resource it was given.
use argocd_operator.Base.{
  String, ◌≡◌, ◌≢◌, refl, ◌⊎◌, inl, inr, Bool, true, false, ◌&&◌, ◌==◌, string_eq, if◌then◌else◌,
  none, List, [], ◌∷◌, pos, Reply, found, absent, refused, listed, Run, done, failed, panicked,
  ◌then_do◌, arith,
}
use argocd_operator.Base.Map.{lookup}
use argocd_operator.Spec.{ArgoCd}
use argocd_operator.Status.{Snapshot}
use argocd_operator.Status.Components.{reconcile_application_controller}
use argocd_operator.Status.Phase.{controller_step, reconcile_status}
use argocd_operator.LocalUsers.Timers.{new_timers}
use argocd_operator.Controller.{deletion_finalizer, Resource, has_finalizer, Counts, Parts, World}
use argocd_operator.Controller.Metrics.{track, untrack, count_reconciliation}
use argocd_operator.Controller.Metrics.Laws.{IsConsistent, track-IsConsistent}
use argocd_operator.Controller.Internal.{Answer, blank_status, internal_reconcile}
use argocd_operator.Controller.Internal.Cleanups.{run_in_order, cleanups}
use argocd_operator.Controller.Internal.Laws.{Unlocks, internal_reconcile-unlocked}
use argocd_operator.Controller.Reconcile.{reconcile}
use argocd_operator.Controller.Reconcile.Laws.{IsLawful, HoldsPhase, status_of, reconcile-Failed}
use argocd_operator.Tests.Fleet.{Entry, fleet, setup}

abbrev State : Type 0
State = (String → List Entry) × List Resource

abbrev find : List Resource → String → String → Reply Resource
find [] namespace name = absent
find (r ∷ rs) namespace name =
    if r.spec.namespace == namespace && r.spec.name == name then found r else find rs namespace name

abbrev unchanged : Resource → State → Run State
unchanged r s = (s, done)

abbrev snapshot : Snapshot
snapshot = record {
  deployment = λ suffix. absent;
  stateful_set = λ suffix. refused "down";
  server_routes = listed [];
  server_ingress = absent;
  route_api_available = false;
}

abbrev parts : String ⊎ Bool → Parts
parts selected = record {
  cluster = fleet (List Resource);
  get_argocd = λ s namespace name. find s.1 namespace name;
  update_argocd = λ s r. ((s.0, r ∷ s.1), none);
  update_argocd_status = λ s r. ((s.0, r ∷ s.1), none);
  snapshot = λ s r. snapshot;
  label_selector = "";
  selects = λ labels. selected;
  remove_label_on_deletion = true;
  delete_cluster_resources = unchanged;
  remove_source_namespaces = unchanged;
  remove_application_set_namespaces = unchanged;
  remove_notifications_namespaces = unchanged;
  restore_tracking_labels = unchanged;
  set_source_namespaces = unchanged;
  set_application_set_namespaces = unchanged;
  set_notifications_namespaces = unchanged;
  reconcile_resources = λ r status s. ((s, r, status), none);
  setup = setup;
}

abbrev spec : ArgoCd
spec = record {
  name = "argocd";
  namespace = "ns";
  controller_enabled = none;
  redis_enabled = none;
  redis_remote = none;
  repo_enabled = none;
  server_enabled = none;
  sso = none;
  ha_enabled = false;
  notifications_enabled = false;
  server_route_enabled = false;
  server_ingress_enabled = false;
  extra_config = [];
  local_users = [];
}

abbrev resource : Bool → Resource
resource is_deleted = record {
  spec = spec;
  namespace_management = none;
  labels = [];
  finalizers = deletion_finalizer ∷ [];
  is_deleted = is_deleted;
  status = record blank_status { phase = "Available" };
  conditions = [];
}

abbrev no_counts : Counts
no_counts = record { active = []; by_phase = []; total = pos 0; reconciliations = [] }

no_counts-IsConsistent : IsConsistent no_counts
unfolding lookup
no_counts-IsConsistent = record { distinct = tt; total-size = refl; gauge-count = λ phase. refl }

abbrev here : String
here = "ns"

abbrev available : String
available = "Available"

track-IsConsistent_example :
    IsConsistent (track here available no_counts)
    × (lookup here no_counts.active ≢ none ⊎ available ≢ ""
        → IsConsistent
            (untrack here available (count_reconciliation here (track here available no_counts))))
track-IsConsistent_example = track-IsConsistent here available no_counts no_counts-IsConsistent

abbrev world : (selected : String ⊎ Bool) → Bool → World (parts selected)
world selected is_deleted = record {
  server = ((λ n. []), resource is_deleted ∷ []);
  managed = [];
  timers = new_timers;
  counts = no_counts;
  events = [];
}

is_found :
    (selected : String ⊎ Bool) (is_deleted : Bool)
    → find (resource is_deleted ∷ []) "ns" "argocd" ≡ found (resource is_deleted)
unfolding string_eq
is_found selected is_deleted = refl

is_locked : has_finalizer (deletion_finalizer ∷ []) ≡ true
unfolding string_eq
is_locked = refl

internal_reconcile-unlocked_example :
    Unlocks
      (parts (inr true))
      (resource true)
      (run_in_order (cleanups (parts (inr true)) (resource true)) (world (inr true) true).server)
      (internal_reconcile (parts (inr true)) (resource false) "ns" "argocd" (world (inr true) true))
internal_reconcile-unlocked_example =
    internal_reconcile-unlocked (parts (inr true)) (resource false) (resource true) "ns" "argocd"
      (world (inr true) true) (is_found (inr true) true) refl refl is_locked

find-named :
    (namespace name : String) (r : Resource) (rs : List Resource)
    → find rs namespace name ≡ found r
    → (r.spec.namespace ≡ namespace) × (r.spec.name ≡ name)
find-named namespace name r [] h = absurd (ground arith)
find-named namespace name r (x ∷ rs) h = ground (arith, find-named namespace name r rs)

parts-IsLawful : (selected : String ⊎ Bool) → IsLawful (parts selected)
parts-IsLawful selected = record {
  status-updated = λ s r h. ground arith;
  named = λ s namespace name r h. find-named namespace name r s.1 h;
}

abbrev bad : String ⊎ Bool
bad = inl "error parsing the labelSelector"

abbrev bad_run : Answer (parts bad)
bad_run = internal_reconcile (parts bad) (resource false) "ns" "argocd" (world bad false)

bad-failed : bad_run.outcome ≡ failed "error parsing the labelSelector"
unfolding internal_reconcile string_eq
bad-failed = refl

bad-calm : (status_of (parts bad) bad_run).1 ≢ panicked
unfolding internal_reconcile string_eq reconcile_status controller_step
    reconcile_application_controller ◌then_do◌
bad-calm h = absurd (ground arith)

bad-found :
    (parts bad).get_argocd bad_run.world.server bad_run.resource.spec.namespace
      bad_run.resource.spec.name
    ≡ found (resource false)
unfolding internal_reconcile string_eq
bad-found = refl

reconcile-Failed_example :
    ((reconcile (parts bad) (resource false) "ns" "argocd" (world bad false)).1
      ≡ failed "error parsing the labelSelector")
    × HoldsPhase
        (parts bad)
        "Failed"
        bad_run.resource.spec.namespace
        bad_run.resource.spec.name
        (reconcile (parts bad) (resource false) "ns" "argocd" (world bad false)).0
reconcile-Failed_example =
    reconcile-Failed (parts bad) (parts-IsLawful bad) (λ s r. refl) (resource false)
      (resource false) "ns" "argocd" (world bad false) "error parsing the labelSelector" bad-failed
      bad-calm bad-found
