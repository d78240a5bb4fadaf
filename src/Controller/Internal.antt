-- ===== src/Controller/Internal.antt =====
-- internalReconcile of controllers/argocd/argocd_controller.go. The request's namespace and name are
-- those of the resource that is read. The requeue for the renewal of Dex's token is left out, and so
-- are the two checksums of the status.
pub mod Cleanups
pub mod Laws
use argocd_operator.Base.{
  String, ◌<>◌, Bool, true, false, not, ◌==◌, string_eq, if◌then◌else◌, Option, none, some, inl,
  inr, List, [], ◌∷◌, ◌++◌, Reply, found, absent, refused, Listing, listed, unlisted, Run, done,
  failed, panicked, Outcome, ◌then_do◌,
}
use argocd_operator.Base.Map.{Map, erase}
use argocd_operator.Condition.{Condition}
use argocd_operator.Status.{ArgoCdStatus}
use argocd_operator.LocalUsers.Timers.{Timers, cleanup_namespace_timers}
use argocd_operator.Namespaces.{Instance, Error, ended, Cluster, Setup, is_management_enabled}
use argocd_operator.Namespaces.Manage.{
  set_managed_namespaces, reconcile_namespace_management, disable_namespace_management,
  release_targeting,
}
use argocd_operator.Namespaces.Handlers.{remove_managed_by_labels}
use argocd_operator.Controller.{
  deletion_finalizer, Resource, instance_of, has_finalizer, remove_string, Counts, Parts, World,
}
use argocd_operator.Controller.Metrics.{track, untrack, count_reconciliation}

-- `fmt.Errorf("...: %w", err)`
abbrev pub wrapped : {S : Type 0} → String → Run S → Run S
wrapped message (s, done) = (s, done)
wrapped message (s, failed e) = (s, failed (message <> e))
wrapped message (s, panicked) = (s, panicked)

abbrev pub blank_status : ArgoCdStatus
blank_status = record {
  application_controller = "";
  application_set_controller = "";
  sso = "";
  notifications_controller = "";
  phase = "";
  redis = "";
  repo = "";
  server = "";
  host = "";
}

module _ (p : Parts) where
  -- What internalReconcile gives: the world, the resource as it is then held, the status so far, and
  -- the error.
  pub record Answer : Type 0 where
    pub world : World p
    pub resource : Resource
    pub status : ArgoCdStatus
    pub outcome : Outcome

  -- A step on the server alone.
  abbrev pub on_server : (p.cluster.State → Run p.cluster.State) → World p → Run (World p)
  on_server f w = let (s, o) = f w.server in (record w { server = s }, o)

  -- The clean-ups of an instance that is being deleted, in their order.
  unfoldable pub run_cleanups : Resource → World p → Run (World p)
  unfolding remove_managed_by_labels ◌then_do◌
  run_cleanups r w =
      on_server
        (λ s. wrapped "failed to delete ClusterResources: " (p.delete_cluster_resources r s)) w
      then_do on_server (λ s.
        if p.remove_label_on_deletion
        then wrapped ("failed to remove label from namespace[" <> r.spec.namespace <> "], error: ")
            (remove_managed_by_labels p.cluster p.setup r.spec.namespace s)
        else (s, done))
      then_do on_server (λ s.
        wrapped "failed to remove resources from sourceNamespaces, error: "
          (p.remove_source_namespaces r s))
      then_do on_server (λ s.
        wrapped "failed to remove resources from applicationSetSourceNamespaces, error: "
          (p.remove_application_set_namespaces r s))
      then_do on_server (λ s.
        wrapped "failed to remove resources from notificationsSourceNamespaces, error: "
          (p.remove_notifications_namespaces r s))

  -- removeDeletionFinalizer, and the reset of the deprecation events' tracker
  abbrev pub finish_deletion : Resource → ArgoCdStatus → Run (World p) → Answer
  finish_deletion r status (w, done) =
      let unlocked = record r { finalizers = remove_string deletion_finalizer r.finalizers } in
      let (s, e) = p.update_argocd w.server unlocked in
      record {
        world = record w {
          server = s;
          events = elim e [ none ↦ erase r.spec.namespace w.events | some _ ↦ w.events ];
        };
        resource = unlocked;
        status = status;
        outcome = elim e [
          | none ↦ done
          | some m ↦
              failed ("failed to remove deletion finalizer from " <> r.spec.name <> ": " <> m)
        ];
      }
  finish_deletion r status (w, failed e) = record {
    world = w;
    resource = r;
    status = status;
    outcome = failed e;
  }
  finish_deletion r status (w, panicked) = record {
    world = w;
    resource = r;
    status = status;
    outcome = panicked;
  }

  abbrev pub counted : Resource → World p → World p
  counted r w = record w {
    counts = count_reconciliation r.spec.namespace (track r.spec.namespace r.status.phase w.counts);
  }

  abbrev pub leaving : Resource → World p → World p
  leaving r w = record w {
    counts = untrack r.spec.namespace r.status.phase w.counts;
    timers = cleanup_namespace_timers r.spec.namespace w.timers;
  }

  -- The branch of an instance whose deletion timestamp is set, after it was counted.
  unfoldable pub delete_instance : Resource → World p → Answer
  unfolding cleanup_namespace_timers run_cleanups untrack remove_string erase
  delete_instance r w =
      let status = record blank_status { phase = "Unknown" } in
      if has_finalizer r.finalizers
      then finish_deletion r status (run_cleanups r (leaving r w))
      else record { world = leaving r w; resource = r; status = status; outcome = done }

  -- setManagedNamespaces and the steps on the namespaces of the sources
  unfoldable pub set_namespaces : Resource → World p → Run (World p)
  unfolding set_managed_namespaces ◌then_do◌
  set_namespaces r w =
      on_server (p.restore_tracking_labels r) w
      then_do (λ v.
          let ((s, managed), o) =
            set_managed_namespaces p.cluster (instance_of r) (v.server, v.managed) in
          (record v { server = s; managed = managed }, o))
      then_do on_server (p.set_source_namespaces r)
      then_do on_server (p.set_application_set_namespaces r)
      then_do on_server (p.set_notifications_namespaces r)

  -- The branches on namespace management.
  unfoldable pub manage_namespaces : Resource → World p → Run (World p)
  unfolding reconcile_namespace_management disable_namespace_management release_targeting
  manage_namespaces r w =
      let cr = instance_of r in
      let ((s, managed), o) =
        reconcile_namespace_management p.cluster p.setup cr (w.server, w.managed) in
      if is_management_enabled p.setup
      then (record w { server = s; managed = managed }, o)
      else elim r.namespace_management [
        | some _ ↦ on_server (disable_namespace_management p.cluster p.setup cr) w
        | none ↦ elim (p.cluster.namespace_managements w.server) [
          | unlisted e ↦ (w, failed e)
          | listed ms ↦ on_server (release_targeting p.cluster p.setup cr ms) w
        ]
      ]

  -- reconcileResources, which also writes the status and the conditions
  abbrev pub finish_resources : Resource → Run (World p) → Answer
  finish_resources r (w, done) =
      let ((s, changed, status), e) = p.reconcile_resources r blank_status w.server in
      record {
        world = record w { server = s };
        resource = changed;
        status = status;
        outcome = ended e;
      }
  finish_resources r (w, failed e) = record {
    world = w;
    resource = r;
    status = blank_status;
    outcome = failed e;
  }
  finish_resources r (w, panicked) = record {
    world = w;
    resource = r;
    status = blank_status;
    outcome = panicked;
  }

  abbrev pub keep_going : Resource → World p → Answer
  keep_going r w = finish_resources r (set_namespaces r w then_do manage_namespaces r)

  -- addDeletionFinalizer: the resource in memory has the finalizer even if the update fails.
  unfoldable pub maintain_instance : Resource → World p → Answer
  unfolding set_namespaces manage_namespaces ◌then_do◌
  maintain_instance r w =
      let locked = record r { finalizers = r.finalizers ++ (deletion_finalizer ∷ []) } in
      let (s, e) = p.update_argocd w.server locked in
      if has_finalizer r.finalizers then keep_going r w else elim e [
        | none ↦ keep_going locked (record w { server = s })
        | some m ↦ record {
          world = record w { server = s };
          resource = locked;
          status = blank_status;
          outcome = failed ("failed to add deletion finalizer for " <> r.spec.name <> ": " <> m);
        }
      ]

  -- The instance is counted, and then deleted or maintained.
  unfoldable pub reconcile_selected : Resource → World p → Answer
  unfolding track delete_instance maintain_instance
  reconcile_selected r w =
      if r.is_deleted then delete_instance r (counted r w) else maintain_instance r (counted r w)

  unfoldable pub internal_reconcile : Resource → String → String → World p → Answer
  unfolding reconcile_selected
  internal_reconcile empty namespace name w = elim (p.get_argocd w.server namespace name) [
    | absent ↦ record { world = w; resource = empty; status = blank_status; outcome = done }
    | refused e ↦ record { world = w; resource = empty; status = blank_status; outcome = failed e }
    | found r ↦ elim (p.selects r.labels) [
      | inl e ↦ record { world = w; resource = r; status = blank_status; outcome = failed e }
      | inr matches ↦ if matches then reconcile_selected r w else record {
        world = w;
        resource = r;
        status = blank_status;
        outcome = failed (
            "the ArgoCD instance '" <> namespace <> "/" <> name
            <> "' does not match the label selector '" <> p.label_selector
            <> "' and skipping for reconciliation");
      }
    ]
  ]
