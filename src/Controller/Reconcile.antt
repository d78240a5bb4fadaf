-- ===== src/Controller/Reconcile.antt =====
-- Reconcile of controllers/argocd/argocd_controller.go and updateStatusAndConditionsOfArgoCD of
-- controllers/argocd/util.go.
pub mod Laws
use argocd_operator.Base.{
  ℕ, String, ◌<>◌, Bool, true, false, not, ◌&&◌, ◌||◌, ◌==◌, string_eq, if◌then◌else◌, Option, none,
  some, List, [], ◌∷◌, Reply, found, absent, refused, Run, done, failed, panicked, Outcome,
}
use argocd_operator.Condition.{Condition, insert_or_update, create_condition}
use argocd_operator.Status.{ArgoCdStatus}
use argocd_operator.Status.Phase.{reconcile_status}
use argocd_operator.Namespaces.{Error, ended}
use argocd_operator.Controller.{Resource, Parts, World}
use argocd_operator.Controller.Internal.{Answer, internal_reconcile}

-- reflect.DeepEqual on the status without its conditions
abbrev pub same_status : ArgoCdStatus → ArgoCdStatus → Bool
same_status a b =
    a.application_controller == b.application_controller
    && a.application_set_controller == b.application_set_controller
    && a.sso == b.sso
    && a.notifications_controller == b.notifications_controller
    && a.phase == b.phase
    && a.redis == b.redis
    && a.repo == b.repo
    && a.server == b.server
    && a.host == b.host

-- `err.Error()`, and the phase that an error sets
abbrev pub error_message : Outcome → String
error_message done = ""
error_message (failed e) = e
error_message panicked = ""

abbrev pub failing : Outcome → ArgoCdStatus → ArgoCdStatus
failing done s = s
failing (failed e) s = record s { phase = "Failed" }
failing panicked s = s

-- The status, the conditions and the message after reconcileStatus, which starts from the first two.
abbrev pub after_status :
    String → Run (ArgoCdStatus × List Condition) → Run (ArgoCdStatus × List Condition × String)
after_status message ((s, cs), done) = ((s, cs, message), done)
after_status message ((s, cs), failed e) =
    ((record s { phase = "Failed" }, cs, "unable to reconcile ArgoCD CR .status field"), done)
after_status message ((s, cs), panicked) = ((s, cs, message), panicked)

module _ (p : Parts) where
  unfoldable pub conclude : Answer p → Run (ArgoCdStatus × List Condition × String)
  unfolding reconcile_status
  conclude a = after_status (error_message a.outcome) (
      reconcile_status (p.snapshot a.world.server a.resource) a.resource.spec
        (failing a.outcome a.status, a.resource.conditions))

  abbrev on_update : World p → p.cluster.State × Error → Run (World p)
  on_update w (s, e) = (record w { server = s }, ended e)

  -- updateStatusAndConditionsOfArgoCD, on the resource of this namespace and name
  unfoldable pub update_status :
      ℕ → Condition → String → String → List Condition → ArgoCdStatus → World p → Run (World p)
  unfolding insert_or_update
  update_status now condition namespace name conditions status w =
      let (changed, new) = insert_or_update condition now conditions in
      elim (p.get_argocd w.server namespace name) [
        | absent ↦ (w, done)
        | refused e ↦ (w, failed e)
        | found latest ↦
            if changed || not (same_status latest.status status)
            then on_update w (
                p.update_argocd_status w.server
                  (record latest { status = status; conditions = new }))
            else (w, done)
      ]

  -- `if updateStatusErr := ...; updateStatusErr != nil { return updateStatusErr }; return err`
  abbrev then_return : Outcome → Run (World p) → Run (World p)
  then_return o (w, done) = (w, o)
  then_return o (w, failed e) = (w, failed e)
  then_return o (w, panicked) = (w, panicked)

  abbrev finish : Answer p → Run (ArgoCdStatus × List Condition × String) → Run (World p)
  unfolding update_status create_condition
  finish a ((status, conditions, message), done) = then_return a.outcome (
      update_status (p.cluster.now a.world.server) (create_condition message)
        a.resource.spec.namespace a.resource.spec.name conditions status a.world)
  finish a (_, failed e) = (a.world, failed e)
  finish a (_, panicked) = (a.world, panicked)

  abbrev after_internal : Answer p → Run (World p)
  unfolding conclude finish
  after_internal a = elim a.outcome [ panicked ↦ (a.world, panicked) | _ ↦ finish a (conclude a) ]

  unfoldable pub reconcile : Resource → String → String → World p → Run (World p)
  unfolding internal_reconcile after_internal
  reconcile empty namespace name w = after_internal (internal_reconcile p empty namespace name w)
