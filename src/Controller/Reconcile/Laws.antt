-- ===== src/Controller/Reconcile/Laws.antt =====
-- What the API server holds of an instance after a run that met an error.
use argocd_operator.Base.{
  ℕ, String, Bool, true, false, not, ◌||◌, ◌==◌, string_eq, ◌≡◌, ◌≢◌, refl, sym, ap, subst, ◌∙◌,
  none, List, ◌⊎◌, inl, inr, found, absent, refused, Run, done, failed, panicked, Outcome, arith,
}
use argocd_operator.Condition.{Condition, insert_or_update, create_condition}
use argocd_operator.Status.{ArgoCdStatus}
use argocd_operator.Status.Phase.{reconcile_status}
use argocd_operator.Status.Phase.Keeps.{reconcile_status-Keeps}
use argocd_operator.Namespaces.{ended}
use argocd_operator.Controller.{Resource, Parts, World}
use argocd_operator.Controller.Internal.{Answer, internal_reconcile}
use argocd_operator.Controller.Reconcile.{
  same_status, error_message, failing, after_status, conclude, update_status, then_return, finish,
  after_internal, reconcile,
}

-- The documented behaviour of the status subresource: an update that succeeds is what is then read.
pub record IsLawful (p : Parts) : Type 0 where
  pub status-updated :
      (s : p.cluster.State) (r : Resource)
      → (p.update_argocd_status s r).1 ≡ none
      → p.get_argocd (p.update_argocd_status s r).0 r.spec.namespace r.spec.name ≡ found r
  pub named :
      (s : p.cluster.State) (namespace name : String) (r : Resource)
      → p.get_argocd s namespace name ≡ found r
      → (r.spec.namespace ≡ namespace) × (r.spec.name ≡ name)

-- The server holds the resource with this phase.
abbrev pub HoldsPhase : (p : Parts) → String → String → String → World p → Type 0
HoldsPhase p phase namespace name w = elim (p.get_argocd w.server namespace name) [
  | found r ↦ r.status.phase ≡ phase
  | absent ↦ ⊥
  | refused e ↦ ⊥
]

HoldsPhase-found :
    (p : Parts) (phase namespace name : String) (w : World p) (r : Resource)
    → p.get_argocd w.server namespace name ≡ found r
    → r.status.phase ≡ phase
    → HoldsPhase p phase namespace name w
HoldsPhase-found p phase namespace name w r g h = rw (HoldsPhase, g) h

module _ (p : Parts) where
  -- reconcileStatus as Reconcile calls it.
  abbrev pub status_of : Answer p → Run (ArgoCdStatus × List Condition)
  status_of a =
      reconcile_status (p.snapshot a.world.server a.resource) a.resource.spec
        (failing a.outcome a.status, a.resource.conditions)

module _ (p : Parts) (l : IsLawful p)
    (writes : (s : p.cluster.State) (r : Resource) → (p.update_argocd_status s r).1 ≡ none) where
  written-HoldsPhase :
      (namespace name : String) (w : World p) (latest : Resource) (status : ArgoCdStatus)
      (cs : List Condition)
      → p.get_argocd w.server namespace name ≡ found latest
      → HoldsPhase p status.phase namespace name (record w {
        server =
            (p.update_argocd_status w.server
              (record latest { status = status; conditions = cs })).0;
      })
  written-HoldsPhase namespace name w latest status cs g =
      let r = record latest { status = status; conditions = cs } in
      let named = l.named w.server namespace name latest g in
      HoldsPhase-found p status.phase namespace name
        (record w { server = (p.update_argocd_status w.server r).0 }) r
        (ap (λ n. p.get_argocd (p.update_argocd_status w.server r).0 n name) (sym named.0)
          ∙ ap (λ n. p.get_argocd (p.update_argocd_status w.server r).0 latest.spec.namespace n)
              (sym named.1)
          ∙ l.status-updated w.server r (writes w.server r))
        refl

  same_status-phase : (a b : ArgoCdStatus) → same_status a b ≡ true → a.phase ≡ b.phase
  same_status-phase a b h = ground arith

  update_status-HoldsPhase :
      (now : ℕ) (condition : Condition) (namespace name : String) (cs : List Condition)
      (status : ArgoCdStatus) (w : World p) (latest : Resource)
      → p.get_argocd w.server namespace name ≡ found latest
      → HoldsPhase p status.phase namespace name
          (update_status p now condition namespace name cs status w).0
        × ((update_status p now condition namespace name cs status w).1 ≡ done)
  unfolding update_status
  update_status-HoldsPhase now condition namespace name cs status w latest g =
      go ((insert_or_update condition now cs).0 || not (same_status latest.status status)) refl
    where
      go :
          (b : Bool)
          → ((insert_or_update condition now cs).0 || not (same_status latest.status status)) ≡ b
          → HoldsPhase p status.phase namespace name
              (update_status p now condition namespace name cs status w).0
            × ((update_status p now condition namespace name cs status w).1 ≡ done)
      go true e =
          rw (update_status, g, e)
            (
              written-HoldsPhase namespace name w latest status
                  (insert_or_update condition now cs).1 g,
              ap ended (
                  writes w.server (record latest {
                    status = status;
                    conditions = (insert_or_update condition now cs).1;
                  })),
            )
      go false e =
          rw (update_status, g, e)
            (
              HoldsPhase-found p status.phase namespace name w latest g
                  (ground (arith, same_status-phase latest.status status)),
              refl,
            )

  after_status-phase :
      (phase message : String) (t : Run (ArgoCdStatus × List Condition))
      → phase ≡ "Failed"
      → t.0.0.phase ≡ phase
      → (after_status message t).0.0.phase ≡ "Failed"
  after_status-phase phase message ((s, cs), done) h k = k ∙ h
  after_status-phase phase message ((s, cs), failed e) h k = refl
  after_status-phase phase message ((s, cs), panicked) h k = k ∙ h

  after_status-done :
      (message : String) (t : Run (ArgoCdStatus × List Condition))
      → t.1 ≢ panicked
      → (after_status message t).1 ≡ done
  after_status-done message ((s, cs), done) h = refl
  after_status-done message ((s, cs), failed e) h = refl
  after_status-done message ((s, cs), panicked) h = absurd (h refl)

  failing-phase :
      (o : Outcome) (e : String) (s : ArgoCdStatus) → o ≡ failed e → (failing o s).phase ≡ "Failed"
  failing-phase done e s h = absurd (ground arith)
  failing-phase (failed m) e s h = refl
  failing-phase panicked e s h = absurd (ground arith)

  failed_is_set : (x : String) → x ≡ "Failed" → (x == "") ≡ false
  unfolding string_eq
  failed_is_set x h = ap (λ s. s == "") h

  then_return_done : (o : Outcome) (t : Run (World p)) → t.1 ≡ done → then_return p o t ≡ (t.0, o)
  then_return_done o (w, done) h = refl
  then_return_done o (w, failed e) h = absurd (ground arith)
  then_return_done o (w, panicked) h = absurd (ground arith)

  conclude-Failed :
      (a : Answer p) (e : String) → a.outcome ≡ failed e → (conclude p a).0.0.phase ≡ "Failed"
  unfolding conclude
  conclude-Failed a e h =
      let start = failing-phase a.outcome e a.status h in
      after_status-phase (failing a.outcome a.status).phase (error_message a.outcome)
        (status_of p a) start
        (phase_kept (failing a.outcome a.status).phase (status_of p a).0.0.phase start
          (reconcile_status-Keeps (p.snapshot a.world.server a.resource) a.resource.spec
            (failing a.outcome a.status) a.resource.conditions).phase)
    where
      phase_kept : (x y : String) → x ≡ "Failed" → (x ≡ "") ⊎ (y ≡ x) → y ≡ x
      phase_kept x y h (inl k) = absurd (ground (arith, failed_is_set x h))
      phase_kept x y h (inr k) = k

  conclude-done : (a : Answer p) → (status_of p a).1 ≢ panicked → (conclude p a).1 ≡ done
  unfolding conclude
  conclude-done a h = after_status-done (error_message a.outcome) (status_of p a) h

  finish-HoldsPhase :
      (a : Answer p) (latest : Resource) (t : Run (ArgoCdStatus × List Condition × String))
      → p.get_argocd a.world.server a.resource.spec.namespace a.resource.spec.name ≡ found latest
      → t.1 ≡ done
      → HoldsPhase p t.0.0.phase a.resource.spec.namespace a.resource.spec.name (finish p a t).0
        × ((finish p a t).1 ≡ a.outcome)
  unfolding finish
  finish-HoldsPhase a latest ((status, cs, message), done) g d =
      let now = p.cluster.now a.world.server in
      let namespace = a.resource.spec.namespace in
      let name = a.resource.spec.name in
      let updated =
        update_status-HoldsPhase now (create_condition message) namespace name cs status a.world
          latest g in
      let last =
        then_return_done a.outcome
          (update_status p now (create_condition message) namespace name cs status a.world)
          updated.1 in
      (
        subst (λ t. HoldsPhase p status.phase namespace name t.0) (sym last) updated.0,
        ap (λ t. t.1) last,
      )
  finish-HoldsPhase a latest (x, failed e) g d = absurd (ground arith)
  finish-HoldsPhase a latest (x, panicked) g d = absurd (ground arith)

  after_failure :
      (a : Answer p) (e : String)
      → a.outcome ≡ failed e
      → after_internal p a ≡ finish p a (conclude p a)
  unfolding after_internal
  after_failure a e h =
      ap
        (λ (o : Outcome). elim o [ panicked ↦ (a.world, panicked) | _ ↦ finish p a (conclude p a) ])
        h

  -- If the status subresource obeys its contract and its updates succeed: a run whose reconciliation
  -- ends with an error, on an instance that the server still has, and whose reconcileStatus does not
  -- panic, returns that error and leaves the server holding the instance in the phase Failed.
  pub reconcile-Failed :
      (empty latest : Resource) (namespace name : String) (w : World p) (e : String)
      → (internal_reconcile p empty namespace name w).outcome ≡ failed e
      → (status_of p (internal_reconcile p empty namespace name w)).1 ≢ panicked
      → p.get_argocd
          (internal_reconcile p empty namespace name w).world.server
          (internal_reconcile p empty namespace name w).resource.spec.namespace
          (internal_reconcile p empty namespace name w).resource.spec.name
        ≡ found latest
      → ((reconcile p empty namespace name w).1 ≡ failed e)
        × HoldsPhase p "Failed"
            (internal_reconcile p empty namespace name w).resource.spec.namespace
            (internal_reconcile p empty namespace name w).resource.spec.name
            (reconcile p empty namespace name w).0
  unfolding reconcile
  reconcile-Failed empty latest namespace name w e h calm g =
      ends (internal_reconcile p empty namespace name w) h calm g
    where
      ends :
          (a : Answer p)
          → a.outcome ≡ failed e
          → (status_of p a).1 ≢ panicked
          → p.get_argocd a.world.server a.resource.spec.namespace a.resource.spec.name
            ≡ found latest
          → ((after_internal p a).1 ≡ failed e)
            × HoldsPhase p "Failed" a.resource.spec.namespace a.resource.spec.name
                (after_internal p a).0
      ends a h calm g =
          let closed = finish-HoldsPhase a latest (conclude p a) g (conclude-done a calm) in
          subst
            (λ t.
              (t.1 ≡ failed e)
              × HoldsPhase p "Failed" a.resource.spec.namespace a.resource.spec.name t.0)
            (sym (after_failure a e h))
            (
              closed.1 ∙ h,
              subst
                  (λ x.
                    HoldsPhase p x a.resource.spec.namespace a.resource.spec.name
                      (finish p a (conclude p a)).0)
                  (conclude-Failed a e h) closed.0,
            )
