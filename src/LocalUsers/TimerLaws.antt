-- ===== src/LocalUsers/TimerLaws.antt =====
-- The timers stay consistent: a timer that can fire is the one that the table holds for its user.
use argocd_operator.Base.{
  ℕ, suc, ◌<◌, String, ◌<>◌, ◌∙◌, starts_with, true, false, ◌≡◌, refl, sym, inl, inr, Bool-cases,
  ◌≢◌, ◌==◌, string_eq, ℕ_eq, if◌then◌else◌, Option, none, some, [], ◌∷◌, ℤ, arith,
}
use argocd_operator.Base.Map.{Map, lookup, insert, erase, lookup-insert, lookup-erase}
use argocd_operator.LocalUsers.Timers
use argocd_operator.LocalUsers.Timers.{
  Timer, Timers, new_timers, mark_stopped, stop_timer, start_or_restart_timer,
  cleanup_namespace_timers, fires,
}

-- A live timer is registered under its own key, and timers are numbered in order.
pub record IsConsistent (ts : Timers) : Type 0 where
  pub registered :
      (id : ℕ) (t : Timer)
      → lookup id ts.heap ≡ some t
      → t.stopped ≡ false
      → lookup t.key ts.table ≡ some id
  pub live :
      (key : String) (id : ℕ)
      → lookup key ts.table ≡ some id
      → (t : Timer) × (lookup id ts.heap ≡ some t) × (t.stopped ≡ false) × (t.key ≡ key)
  pub numbered : (id : ℕ) → lookup id ts.heap ≢ none → id < ts.next

stop : Timer → Timer
stop t = record t { stopped = true }

lookup-mark_stopped :
    (i id : ℕ) (heap : Map ℕ Timer)
    → lookup i (mark_stopped id heap) ≡ (
        if i == id
        then elim (lookup i heap) [ none ↦ none | some t ↦ some (stop t) ]
        else lookup i heap)
unfolding lookup mark_stopped stop
lookup-mark_stopped i id [] = ground arith
lookup-mark_stopped i id ((j, t) ∷ heap) = ground (arith, lookup-mark_stopped i id heap)

pub new_timers-IsConsistent : IsConsistent new_timers
unfolding lookup
new_timers-IsConsistent = record {
  registered = λ id t h. cc;
  live = λ key id h. cc;
  numbered = λ id h. absurd (h refl);
}

module _ (key : String) (ts : Timers) (c : IsConsistent ts) where
  stop_registered :
      (k : ℕ) (e : lookup key ts.table ≡ some k) (id : ℕ) (t : Timer)
      → lookup id (mark_stopped k ts.heap) ≡ some t
      → t.stopped ≡ false
      → lookup t.key (erase key ts.table) ≡ some id
  unfolding stop
  stop_registered k e id t h live = ground (
    arith,
    lookup-mark_stopped id k ts.heap,
    lookup-erase t.key key ts.table,
    c.registered id t,
    c.live key k e,
  )

  -- A timer under another key is not the one that stops.
  other_kept :
      (k : ℕ) (j : String) (id : ℕ) (t u : Timer)
      → lookup j (erase key ts.table) ≡ some id
      → lookup k ts.heap ≡ some u
      → u.key ≡ key
      → lookup id ts.heap ≡ some t
      → t.key ≡ j
      → lookup id (mark_stopped k ts.heap) ≡ some t
  other_kept k j id t u h at_k own_k at_id own =
      ground (arith, lookup-mark_stopped id k ts.heap, lookup-erase j key ts.table)

  stop_live :
      (k : ℕ) (e : lookup key ts.table ≡ some k) (j : String) (id : ℕ)
      → lookup j (erase key ts.table) ≡ some id
      → (t : Timer) × (lookup id (mark_stopped k ts.heap) ≡ some t)
        × (t.stopped ≡ false)
        × (t.key ≡ j)
  stop_live k e j id h =
      let before : lookup j ts.table ≡ some id = ground (arith, lookup-erase j key ts.table) in
      let (t, at_id, is_live, own) = c.live j id before in
      let (u, at_k, was_live, own_k) = c.live key k e in
      (t, other_kept k j id t u h at_k own_k at_id own, is_live, own)

  stop_numbered : (k : ℕ) (id : ℕ) → lookup id (mark_stopped k ts.heap) ≢ none → id < ts.next
  stop_numbered k id h = ground (arith, lookup-mark_stopped id k ts.heap, c.numbered id)

  pub stop_timer-IsConsistent : IsConsistent (stop_timer key ts)
  unfolding stop_timer
  stop_timer-IsConsistent = go (lookup key ts.table) refl
    where
      go : (o : Option ℕ) → lookup key ts.table ≡ o → IsConsistent (stop_timer key ts)
      go none e = rw (e, stop_timer) c
      go (some k) e =
          rw (e, stop_timer)
            (record {
              registered = stop_registered k e;
              live = stop_live k e;
              numbered = stop_numbered k;
            })

module _ (key : String) (delay : ℤ) (ts : Timers) (c : IsConsistent ts) where
  started : Timer
  started = record { key = key; delay = delay; stopped = false }

  erased : lookup key (stop_timer key ts).table ≡ none
  unfolding stop_timer
  erased = ground (arith, lookup-erase key key ts.table)

  start_live :
      (s : Timers) (cs : IsConsistent s) (j : String) (id : ℕ)
      → lookup j (insert key s.next s.table) ≡ some id
      → (t : Timer) × (lookup id ((s.next, started) ∷ s.heap) ≡ some t)
        × (t.stopped ≡ false)
        × (t.key ≡ j)
  unfolding lookup started
  start_live s cs j id h = elim (string_eq.dec j key) [
    | yes p ↦ (started, ground (arith, lookup-insert j key s.next s.table), refl, sym p)
    | no n ↦
        let before : lookup j s.table ≡ some id =
          ground (arith, lookup-insert j key s.next s.table) in
        let (t, at_id, is_live, own) = cs.live j id before in
        (t, ground (arith, cs.numbered id), is_live, own)
  ]

  start_IsConsistent :
      (s : Timers)
      → IsConsistent s
      → lookup key s.table ≡ none
      → IsConsistent (record {
        table = insert key s.next s.table;
        heap = (s.next, started) ∷ s.heap;
        next = suc s.next;
      })
  unfolding lookup started
  start_IsConsistent s cs free = record {
    registered = λ id t h live.
        ground (arith, lookup-insert t.key key s.next s.table, cs.registered id t, cs.numbered id);
    live = start_live s cs;
    numbered = λ id h. ground (arith, cs.numbered id);
  }

  pub start_or_restart_timer-IsConsistent : IsConsistent (start_or_restart_timer key delay ts)
  unfolding start_or_restart_timer started
  start_or_restart_timer-IsConsistent =
      start_IsConsistent (stop_timer key ts) (stop_timer-IsConsistent key ts c) erased

lookup-stop_timer :
    (j key : String) (ts : Timers)
    → lookup j (stop_timer key ts).table ≡ (if j == key then none else lookup j ts.table)
unfolding stop_timer
lookup-stop_timer j key ts = ground (arith, lookup-erase j key ts.table)

module _ (prefix : String) where
  stop_prefixed-IsConsistent :
      (entries : Map String ℕ) (ts : Timers)
      → IsConsistent ts
      → IsConsistent (Timers.stop_prefixed prefix entries ts)
  unfolding Timers.stop_prefixed
  stop_prefixed-IsConsistent [] ts c = c
  stop_prefixed-IsConsistent ((key, id) ∷ entries) ts c =
      stop_prefixed-IsConsistent entries _ (elim (Bool-cases (starts_with key prefix)) [
        | inl e ↦ rw e (stop_timer-IsConsistent key ts c)
        | inr e ↦ rw e c
      ])

  lookup-stop_prefixed :
      (j : String) (entries : Map String ℕ) (ts : Timers)
      → lookup j (Timers.stop_prefixed prefix entries ts).table ≡ (
          if starts_with j prefix
          then elim (lookup j entries) [ none ↦ lookup j ts.table | some _ ↦ none ]
          else lookup j ts.table)
  unfolding Timers.stop_prefixed lookup
  lookup-stop_prefixed j [] ts = ground arith
  lookup-stop_prefixed j ((key, id) ∷ entries) ts = ground (
    arith,
    lookup-stop_prefixed j entries (stop_timer key ts),
    lookup-stop_prefixed j entries ts,
    lookup-stop_timer j key ts,
  )

-- The clean-up of a namespace keeps the timers consistent.
pub cleanup_namespace_timers-IsConsistent :
    (namespace : String) (ts : Timers)
    → IsConsistent ts
    → IsConsistent (cleanup_namespace_timers namespace ts)
unfolding cleanup_namespace_timers
cleanup_namespace_timers-IsConsistent namespace ts c =
    stop_prefixed-IsConsistent (namespace <> "/") ts.table ts c

-- The clean-up of a namespace removes from the table the entries whose keys begin with the namespace
-- and a slash, and leaves every other key its entry.
pub lookup-cleanup_namespace_timers :
    (j namespace : String) (ts : Timers)
    → lookup j (cleanup_namespace_timers namespace ts).table
      ≡ (if starts_with j (namespace <> "/") then none else lookup j ts.table)
unfolding cleanup_namespace_timers
lookup-cleanup_namespace_timers j namespace ts =
    lookup-stop_prefixed (namespace <> "/") j ts.table ts ∙ ground arith

-- A timer that fires is registered, and no two timers of one key fire.
pub fires_registered :
    (ts : Timers) (id : ℕ)
    → IsConsistent ts
    → fires id ts ≡ true
    → (t : Timer) × (lookup id ts.heap ≡ some t) × (lookup t.key ts.table ≡ some id)
unfolding fires
fires_registered ts id c h = go (lookup id ts.heap) refl
  where
    go :
        (o : Option Timer)
        → lookup id ts.heap ≡ o
        → (t : Timer) × (lookup id ts.heap ≡ some t) × (lookup t.key ts.table ≡ some id)
    go none e = absurd (ground arith)
    go (some t) e = (t, e, c.registered id t e (ground arith))
