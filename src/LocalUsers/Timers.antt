-- ===== src/LocalUsers/Timers.antt =====
-- The token renewal timers of controllers/argocd/localusers.go and the types LocalUsersInfo and
-- tokenRenewalTimer of controllers/argocd/argocd_controller.go. A pointer to a timer is a number, at
-- which `heap` holds the timer: the closure of a timer reads its `stopped` flag through the pointer
-- after the timer has left the table. The lock makes each operation one step.
use argocd_operator.Base.{
  ℕ, suc, String, ◌<>◌, starts_with, Bool, true, false, ◌==◌, string_eq, ℕ_eq, if◌then◌else◌, none,
  some, [], ◌∷◌, ℤ,
}
use argocd_operator.Base.Map.{Map, lookup, insert, erase}

-- The key that the closure was made for, and the delay given to time.AfterFunc.
pub record Timer : Type 0 where
  pub key : String
  pub delay : ℤ
  pub stopped : Bool

pub record Timers : Type 0 where
  pub table : Map String ℕ
  pub heap : Map ℕ Timer
  pub next : ℕ

abbrev pub new_timers : Timers
new_timers = record { table = []; heap = []; next = 0 }

-- tokenRenewalTimerKeyLocalUser
abbrev pub timer_key : String → String → String
timer_key namespace name = namespace <> "/" <> name

-- `timer.stopped = true` through the pointer.
unfoldable pub mark_stopped : ℕ → Map ℕ Timer → Map ℕ Timer
mark_stopped id [] = []
mark_stopped id ((j, t) ∷ heap) =
    if id == j then (j, record t { stopped = true }) ∷ heap else (j, t) ∷ mark_stopped id heap

-- stopLocalUserTimer, at the key of the user
unfoldable pub stop_timer : String → Timers → Timers
unfolding lookup erase mark_stopped
stop_timer key ts = elim (lookup key ts.table) [
  | none ↦ ts
  | some id ↦ record ts { table = erase key ts.table; heap = mark_stopped id ts.heap }
]

-- startOrRestartLocalUserTimer
unfoldable pub start_or_restart_timer : String → ℤ → Timers → Timers
unfolding stop_timer insert
start_or_restart_timer key delay timers =
    let ts = stop_timer key timers in
    record {
      table = insert key ts.next ts.table;
      heap = (ts.next, record { key = key; delay = delay; stopped = false }) ∷ ts.heap;
      next = suc ts.next;
    }

-- The loop of cleanupNamespaceTokenTimers over the entries of the table.
unfoldable pub stop_prefixed : String → Map String ℕ → Timers → Timers
unfolding stop_timer
stop_prefixed prefix [] ts = ts
stop_prefixed prefix ((key, id) ∷ entries) ts =
    stop_prefixed prefix entries (if starts_with key prefix then stop_timer key ts else ts)

unfoldable pub cleanup_namespace_timers : String → Timers → Timers
unfolding stop_prefixed
cleanup_namespace_timers namespace ts = stop_prefixed (namespace <> "/") ts.table ts

-- Whether the closure of the timer goes on to reconcile when it runs.
unfoldable pub fires : ℕ → Timers → Bool
unfolding lookup
fires id ts = elim (lookup id ts.heap) [ none ↦ false | some t ↦ if t.stopped then false else true ]
