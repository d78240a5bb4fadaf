-- ===== src/Controller/Internal/Laws.antt =====
-- When the deletion finalizer of an instance goes.
use argocd_operator.Base.{
  String, Bool, true, false, not, ◌&&◌, ◌==◌, contains, string_eq, if◌then◌else◌, ◌≡◌, ◌≢◌, none,
  refl, sym, ap, subst, ◌∙◌, ◌↔◌, inr, List, [], ◌∷◌, found, done, failed, panicked, arith, Run,
}
use argocd_operator.Controller.{
  deletion_finalizer, Resource, has_finalizer, remove_string, Parts, World,
}
use argocd_operator.Status.{ArgoCdStatus}
use argocd_operator.Controller.Internal.Cleanups.{
  is_done, run_in_order, cleanups, run_cleanups-Tracks,
}
use argocd_operator.Controller.Internal.{
  Answer, blank_status, run_cleanups, counted, leaving, finish_deletion, delete_instance,
  maintain_instance, reconcile_selected, internal_reconcile,
}

contains-remove_string :
    (f : String) (fs : List String) (g : String)
    → contains (remove_string f fs) g ≡ (contains fs g && not (g == f))
unfolding remove_string
contains-remove_string f [] g = refl
contains-remove_string f (x ∷ fs) g = ground (arith, contains-remove_string f fs g)

module _ (p : Parts) where
  -- The update that takes the operator's finalizer off leads from one state of the server to another.
  pub record Unlocked (r : Resource) (s : p.cluster.State) (a : Answer p) : Type 0 where
    pub finalizers : List String
    pub kept :
        (f : String)
        → contains finalizers f ≡ (contains r.finalizers f && not (f == deletion_finalizer))
    pub held : a.resource ≡ record r { finalizers = finalizers }
    pub sent : a.world.server ≡ (p.update_argocd s (record r { finalizers = finalizers })).0
    pub error :
        (a.outcome ≡ done) ↔ ((p.update_argocd s (record r { finalizers = finalizers })).1 ≡ none)

  abbrev pub Unlocks : Resource → p.cluster.State × Bool → Answer p → Type 0
  Unlocks r (s, true) a = Unlocked r s a
  Unlocks r (s, false) a = (a.resource ≡ r) × (a.world.server ≡ s) × (a.outcome ≢ done)

  finish_deletion-ran :
      (r : Resource) (status : ArgoCdStatus) (m : Run (World p))
      → Unlocks r (m.0.server, is_done m.1) (finish_deletion p r status m)
  finish_deletion-ran r status (w, done) = record {
    finalizers = remove_string deletion_finalizer r.finalizers;
    kept = contains-remove_string deletion_finalizer r.finalizers;
    held = refl;
    sent = refl;
    error = ground arith;
  }
  finish_deletion-ran r status (w, failed e) = (refl, refl, λ h. cc)
  finish_deletion-ran r status (w, panicked) = (refl, refl, λ h. cc)

  finish_deletion-Unlocks :
      (r : Resource) (status : ArgoCdStatus) (v : World p)
      → Unlocks r
          (run_in_order (cleanups p r) v.server)
          (finish_deletion p r status (run_cleanups p r v))
  finish_deletion-Unlocks r status v =
      subst (λ t. Unlocks r t (finish_deletion p r status (run_cleanups p r v)))
        (sym (run_cleanups-Tracks p r v).ends) (finish_deletion-ran r status (run_cleanups p r v))

  internal_reconcile_found :
      (empty r : Resource) (namespace name : String) (w : World p)
      → p.get_argocd w.server namespace name ≡ found r
      → p.selects r.labels ≡ inr true
      → internal_reconcile p empty namespace name w ≡ reconcile_selected p r w
  unfolding internal_reconcile
  internal_reconcile_found empty r namespace name w g s = rw (internal_reconcile, g, s) refl

  reconcile_selected_deleted :
      (r : Resource) (w : World p)
      → r.is_deleted ≡ true
      → reconcile_selected p r w ≡ delete_instance p r (counted p r w)
  unfolding reconcile_selected
  reconcile_selected_deleted r w d =
      ap
        (λ b.
          if b then delete_instance p r (counted p r w) else maintain_instance p r (counted p r w))
        d

  delete_instance_locked :
      (r : Resource) (v : World p)
      → has_finalizer r.finalizers ≡ true
      → delete_instance p r v
        ≡ finish_deletion p r
            (record blank_status { phase = "Unknown" })
            (run_cleanups p r (leaving p r v))
  unfolding delete_instance
  delete_instance_locked r v f =
      ap
        (λ b.
          if b
          then finish_deletion p r (record blank_status { phase = "Unknown" })
              (run_cleanups p r (leaving p r v))
          else record {
            world = leaving p r v;
            resource = r;
            status = record blank_status { phase = "Unknown" };
            outcome = done;
          })
        f

  -- For an instance that the request finds, the label selector matches, and that is being deleted with
  -- the operator's finalizer. If the five clean-ups, run in order until one fails, all end without an
  -- error, the server is then sent the instance with the operator's finalizer taken off, every other
  -- finalizer and field kept, and the run ends with that instance, without an error exactly if that update
  -- has none. If one fails, nothing more is sent to the server, the run ends with the instance as it was
  -- found, and not without an error.
  pub internal_reconcile-unlocked :
      (empty r : Resource) (namespace name : String) (w : World p)
      → p.get_argocd w.server namespace name ≡ found r
      → p.selects r.labels ≡ inr true
      → r.is_deleted ≡ true
      → has_finalizer r.finalizers ≡ true
      → Unlocks r
          (run_in_order (cleanups p r) w.server)
          (internal_reconcile p empty namespace name w)
  internal_reconcile-unlocked empty r namespace name w g s d f =
      let v = leaving p r (counted p r w) in
      subst (Unlocks r (run_in_order (cleanups p r) w.server))
        (sym (
          internal_reconcile_found empty r namespace name w g s
          ∙ reconcile_selected_deleted r w d
          ∙ delete_instance_locked r (counted p r w) f))
        (finish_deletion-Unlocks r (record blank_status { phase = "Unknown" }) v)
