-- ===== src/Controller/Internal/Cleanups.antt =====
-- The clean-ups of an instance that is being deleted, as operations run in order.
use argocd_operator.Base.{
  String, Bool, true, false, string_eq, if◌then◌else◌, ◌≡◌, refl, ap, ◌∙◌, List, [], ◌∷◌, done,
  failed, panicked, arith, Run, Outcome, ◌then_do◌, ◌++◌, ◌<>◌,
}
use argocd_operator.Controller.{Resource, Parts, World}
use argocd_operator.Namespaces.Handlers.{remove_managed_by_labels}
use argocd_operator.Controller.Internal.{on_server, wrapped, run_cleanups}

-- Operations of a server run in order, until one does not end as it should: the state of the server, and
-- whether all were run and ended so.
abbrev pub run_in_order : {S : Type 0} → List (S → Run S) → S → S × Bool
run_in_order [] s = (s, true)
run_in_order (f ∷ fs) s =
    let (t, o) = f s in
    let rest = run_in_order fs t in
    elim o [ done ↦ rest | failed e ↦ (t, false) | panicked ↦ (t, false) ]

abbrev pub is_done : Outcome → Bool
is_done done = true
is_done (failed e) = false
is_done panicked = false

abbrev next : {S : Type 0} → (S → Run S) → S × Bool → S × Bool
next f (s, true) = run_in_order (f ∷ []) s
next f (s, false) = (s, false)

run_in_order_snoc :
    {S : Type 0} (f : S → Run S) (fs : List (S → Run S)) (s : S)
    → run_in_order (fs ++ (f ∷ [])) s ≡ next f (run_in_order fs s)
run_in_order_snoc f [] s = refl
run_in_order_snoc f (g ∷ fs) s = by_outcome (g s).1 (run_in_order_snoc f fs (g s).0)
  where
    by_outcome :
        (o : Outcome)
        → run_in_order (fs ++ (f ∷ [])) (g s).0 ≡ next f (run_in_order fs (g s).0)
        → elim o [
          | done ↦ run_in_order (fs ++ (f ∷ [])) (g s).0
          | failed e ↦ ((g s).0, false)
          | panicked ↦ ((g s).0, false)
        ]
          ≡ next f (elim o [
            | done ↦ run_in_order fs (g s).0
            | failed e ↦ ((g s).0, false)
            | panicked ↦ ((g s).0, false)
          ])
    by_outcome done ih = ih
    by_outcome (failed e) ih = refl
    by_outcome panicked ih = refl

module _ (p : Parts) where
  -- The clean-ups of an instance, in the order in which they are promised.
  abbrev pub cleanups : Resource → List (p.cluster.State → Run p.cluster.State)
  cleanups r =
      p.delete_cluster_resources r
      ∷ (λ s.
          if p.remove_label_on_deletion
          then remove_managed_by_labels p.cluster p.setup r.spec.namespace s
          else (s, done))
      ∷ p.remove_source_namespaces r
      ∷ p.remove_application_set_namespaces r
      ∷ p.remove_notifications_namespaces r
      ∷ []

  -- A run of the model ends as the operations do, run in order.
  pub record Tracks (fs : List (p.cluster.State → Run p.cluster.State)) (s : p.cluster.State)
      (m : Run (World p)) : Type 0 where
    pub ends : run_in_order fs s ≡ (m.0.server, is_done m.1)

  Tracks-on_server :
      (message : String) (f : p.cluster.State → Run p.cluster.State) (w : World p)
      → Tracks (f ∷ []) w.server (on_server p (λ s. wrapped message (f s)) w)
  Tracks-on_server message f w = record { ends = ground arith }

  Tracks-label :
      (message : String) (on : Bool) (f : p.cluster.State → Run p.cluster.State) (w : World p)
      → Tracks
          ((λ s. if on then f s else (s, done)) ∷ [])
          w.server
          (on_server p (λ s. if on then wrapped message (f s) else (s, done)) w)
  Tracks-label message true f w = record { ends = (Tracks-on_server message f w).ends }
  Tracks-label message false f w = record { ends = refl }

  Tracks-then_do :
      (f : p.cluster.State → Run p.cluster.State) (h : World p → Run (World p))
      → ((w : World p) → Tracks (f ∷ []) w.server (h w))
      → (fs : List (p.cluster.State → Run p.cluster.State)) (s : p.cluster.State)
      → (m : Run (World p)) → Tracks fs s m
      → Tracks (fs ++ (f ∷ [])) s (m then_do h)
  unfolding ◌then_do◌
  Tracks-then_do f h k fs s (w, done) t = record {
    ends = run_in_order_snoc f fs s ∙ ap (next f) t.ends ∙ (k w).ends;
  }
  Tracks-then_do f h k fs s (w, failed e) t = record {
    ends = run_in_order_snoc f fs s ∙ ap (next f) t.ends;
  }
  Tracks-then_do f h k fs s (w, panicked) t = record {
    ends = run_in_order_snoc f fs s ∙ ap (next f) t.ends;
  }

  pub run_cleanups-Tracks :
      (r : Resource) (v : World p) → Tracks (cleanups r) v.server (run_cleanups p r v)
  unfolding run_cleanups
  run_cleanups-Tracks r v =
      let one =
        Tracks-on_server "failed to delete ClusterResources: " (p.delete_cluster_resources r) v in
      let two =
        Tracks-then_do _ _
          (Tracks-label
            ("failed to remove label from namespace[" <> r.spec.namespace <> "], error: ")
            p.remove_label_on_deletion
            (remove_managed_by_labels p.cluster p.setup r.spec.namespace))
          _ _ _ one in
      let three =
        Tracks-then_do _ _
          (Tracks-on_server "failed to remove resources from sourceNamespaces, error: "
            (p.remove_source_namespaces r))
          _ _ _ two in
      let four =
        Tracks-then_do _ _
          (Tracks-on_server
            "failed to remove resources from applicationSetSourceNamespaces, error: "
            (p.remove_application_set_namespaces r))
          _ _ _ three in
      Tracks-then_do _ _
        (Tracks-on_server "failed to remove resources from notificationsSourceNamespaces, error: "
          (p.remove_notifications_namespaces r))
        _ _ _ four
