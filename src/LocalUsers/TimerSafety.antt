-- ===== src/LocalUsers/TimerSafety.antt =====
-- The timers stay consistent through every call of reconcileLocalUsers, whatever the API server does,
-- and through every interleaving of such calls with the clean-up of a namespace.
use argocd_operator.Base.{
  ℕ, suc, String, Bool, true, false, ◌≡◌, Option, none, some, List, [], ◌∷◌, ℤ, is_zero, ◌⊎◌, inl,
  inr, Reply, found, absent, refused, listed, unlisted, if◌then◌else◌, arith, contains, Listing,
  string_eq, ℕ_eq,
}
use argocd_operator.Spec.{ArgoCd, LocalUser}
use argocd_operator.Base.Map.{lookup}
use argocd_operator.LocalUsers.Timers.{
  Timers, Timer, timer_key, new_timers, stop_timer, start_or_restart_timer,
  cleanup_namespace_timers, fires,
}
use argocd_operator.LocalUsers.TimerLaws.{
  IsConsistent, new_timers-IsConsistent, stop_timer-IsConsistent,
  start_or_restart_timer-IsConsistent, cleanup_namespace_timers-IsConsistent, fires_registered,
}
use argocd_operator.LocalUsers.Cluster
use argocd_operator.LocalUsers.Cluster.{
  Secret, Client, Runtime, Draws, continue, Result, ok, err, Err, bad_expiry, value, Sys, Action,
  ◌>>=◌, ◌>>◌,
}
use argocd_operator.LocalUsers.Tokens.{issue_token, secret_name}
use argocd_operator.LocalUsers.Tokens
use argocd_operator.LocalUsers.Cleanup
use argocd_operator.Base.Text.{trim_space}
use argocd_operator.LocalUsers.Cleanup.{legacy_users, cleanup_local_user, cleanup_local_users}
use argocd_operator.LocalUsers.Reconcile
use argocd_operator.LocalUsers.Reconcile.{reconcile_local_user, reconcile_local_users}

module _ (c : Client) where
  abbrev Keeps : {A : Type 0} → Action c A → Type 0
  Keeps m = (s : c.State) (ts : Timers) → IsConsistent ts → IsConsistent (m (s, ts)).0.1

  Keeps-continue :
      {A B : Type 0} (t : Sys c × Result A) (f : A → Action c B)
      → IsConsistent t.0.1
      → ((a : A) → Keeps (f a))
      → IsConsistent (continue t f).0.1
  Keeps-continue (t, ok a) f i k = k a t.0 t.1 i
  Keeps-continue (t, err e) f i k = i

  Keeps->>= :
      {A B : Type 0} (m : Action c A) (f : A → Action c B)
      → Keeps m
      → ((a : A) → Keeps (f a))
      → Keeps (m >>= f)
  unfolding ◌>>=◌
  Keeps->>= m f h k s ts i = Keeps-continue (m (s, ts)) f (h s ts i) k

  Keeps->> :
      {B : Type 0} (m : Action c (Unit {0})) (k : Action c B) → Keeps m → Keeps k → Keeps (m >> k)
  unfolding ◌>>◌
  Keeps->> m k h l s ts i = Keeps-continue (m (s, ts)) (λ _. k) (h s ts i) (λ _. l)

  -- The actions that leave the timers alone.
  abbrev Leaves : {A : Type 0} → Action c A → Type 0
  Leaves m = (s : c.State) (ts : Timers) → (m (s, ts)).0.1 ≡ ts

  Keeps-of-Leaves : {A : Type 0} (m : Action c A) → Leaves m → Keeps m
  Keeps-of-Leaves m h s ts i = rw (h s ts) i

  update_auto_renew-Leaves :
      (r : Runtime) (user : LocalUser) (x : Secret)
      → Leaves (Reconcile.update_auto_renew c r user x)
  unfolding Reconcile.update_auto_renew
  update_auto_renew-Leaves r user x s ts = ground arith

  needs_token-Leaves :
      (r : Runtime) (cr : ArgoCd) (user : LocalUser) (lifetime : String) (duration expires_at : ℤ)
      (draws : Draws r.Time) (x : Secret)
      → Leaves (Reconcile.needs_token c r cr user lifetime duration expires_at draws x)
  unfolding Reconcile.needs_token ◌>>=◌
  needs_token-Leaves r cr user lifetime duration expires_at draws x s ts = ground arith

  cleanup_local_user-Leaves :
      (cr : ArgoCd) (name : String) (x : Option Secret) → Leaves (cleanup_local_user c cr name x)
  unfolding cleanup_local_user ◌>>=◌ ◌>>◌
  cleanup_local_user-Leaves cr name x s ts = ground arith

  issue_token-Leaves :
      (r : Runtime) (cr : ArgoCd) (user : LocalUser) (lifetime : String) (duration : ℤ)
      (draws : Draws r.Time)
      → Leaves (issue_token c r cr user lifetime duration draws)
  unfolding issue_token Tokens.signing_key Tokens.user_secret Tokens.add_token
      Tokens.write_user_secret ◌>>=◌ ◌>>◌
  issue_token-Leaves r cr user lifetime duration draws s ts = ground arith

  stop-Keeps : (key : String) → Keeps (Cluster.on_timers c (stop_timer key))
  stop-Keeps key s ts i = stop_timer-IsConsistent key ts i

  restart-Keeps :
      (key : String) (delay : ℤ) (ts t : Timers)
      → (t ≡ ts) ⊎ (t ≡ start_or_restart_timer key delay ts)
      → IsConsistent ts
      → IsConsistent t
  restart-Keeps key delay ts t (inl e) i = rw e i
  restart-Keeps key delay ts t (inr e) i = rw e (start_or_restart_timer-IsConsistent key delay ts i)

  if-Keeps :
      {A : Type 0} (b : Bool) (m k : Action c A) → Keeps m → Keeps k → Keeps (if b then m else k)
  if-Keeps true m k h l = h
  if-Keeps false m k h l = l

  module _ (r : Runtime) (cr : ArgoCd) (user : LocalUser) where
    schedule_new-Keeps : (duration : ℤ) → Keeps (Reconcile.schedule_new c r cr user duration)
    unfolding Reconcile.schedule_new
    schedule_new-Keeps duration s ts =
        restart-Keeps (timer_key cr.namespace user.name) duration ts _ (ground arith)

    schedule_existing-Keeps :
        (duration expires_at : ℤ) (draws : Draws r.Time)
        → Keeps (Reconcile.schedule_existing c r cr user duration expires_at draws)
    unfolding Reconcile.schedule_existing
    schedule_existing-Keeps duration expires_at draws s ts =
        restart-Keeps (timer_key cr.namespace user.name)
          (if is_zero expires_at
            then duration
            else r.until (r.of_unix expires_at) draws.scheduled_at)
          ts _ (ground arith)

    module _ (lifetime : String) (duration : ℤ) (draws : Draws r.Time) where
      renew-Keeps : Keeps (Reconcile.renew c r cr user lifetime duration draws)
      unfolding Reconcile.renew
      renew-Keeps =
          Keeps->> (issue_token c r cr user lifetime duration draws) _
            (Keeps-of-Leaves (issue_token c r cr user lifetime duration draws)
              (issue_token-Leaves r cr user lifetime duration draws))
            (schedule_new-Keeps duration)

      kept-Keeps :
          (x : Secret) (expires_at : ℤ)
          → Keeps (
              Reconcile.update_auto_renew c r user x
              >> Reconcile.schedule_existing c r cr user duration expires_at draws)
      kept-Keeps x expires_at =
          Keeps->> (Reconcile.update_auto_renew c r user x) _
            (Keeps-of-Leaves (Reconcile.update_auto_renew c r user x)
              (update_auto_renew-Leaves r user x))
            (schedule_existing-Keeps duration expires_at draws)

      decided-Keeps :
          (x : Secret) (expires_at : ℤ)
          → Keeps (
              Reconcile.needs_token c r cr user lifetime duration expires_at draws x >>= λ needed.
              if needed
              then Reconcile.renew c r cr user lifetime duration draws
              else (Reconcile.update_auto_renew c r user x
                  >> Reconcile.schedule_existing c r cr user duration expires_at draws))
      decided-Keeps x expires_at =
          Keeps->>= (Reconcile.needs_token c r cr user lifetime duration expires_at draws x) _
            (Keeps-of-Leaves
              (Reconcile.needs_token c r cr user lifetime duration expires_at draws x)
              (needs_token-Leaves r cr user lifetime duration expires_at draws x))
            (λ needed. if-Keeps needed _ _ renew-Keeps (kept-Keeps x expires_at))

      reconcile_existing-Keeps :
          (x : Secret) → Keeps (Reconcile.reconcile_existing c r cr user lifetime duration draws x)
      unfolding Reconcile.reconcile_existing
      reconcile_existing-Keeps x =
          Keeps->>= (Cluster.from_option bad_expiry (r.parse_int (value "expAt" x.data_map))) _
            (Keeps-of-Leaves
              (Cluster.from_option bad_expiry (r.parse_int (value "expAt" x.data_map)))
              (λ s ts. ground arith))
            (decided-Keeps x)

      cleanup-Keeps : (x : Option Secret) → Keeps (cleanup_local_user c cr user.name x)
      cleanup-Keeps x =
          Keeps-of-Leaves (cleanup_local_user c cr user.name x)
            (cleanup_local_user-Leaves cr user.name x)

      reconcile_reply-Keeps :
          (reply : Reply Secret)
          → Keeps (Reconcile.reconcile_reply c r cr user lifetime duration draws reply)
      unfolding Reconcile.reconcile_reply
      reconcile_reply-Keeps (refused e) = λ s ts i. i
      reconcile_reply-Keeps absent =
          if-Keeps (Reconcile.is_disabled user) _ _ (cleanup-Keeps none) renew-Keeps
      reconcile_reply-Keeps (found x) =
          if-Keeps (Reconcile.is_disabled user) _ _ (cleanup-Keeps (some x))
            (reconcile_existing-Keeps x)

      reconcile_secret-Keeps :
          Keeps (Reconcile.reconcile_secret c r cr user lifetime duration draws)
      unfolding Reconcile.reconcile_secret
      reconcile_secret-Keeps s ts =
          reconcile_reply-Keeps (c.get s cr.namespace (secret_name user)) s ts

    stop_if :
        (b : Bool)
        → Keeps (
            Cluster.on_timers c
              (if b then stop_timer (timer_key cr.namespace user.name) else λ ts. ts))
    stop_if true = stop-Keeps (timer_key cr.namespace user.name)
    stop_if false = λ s ts i. i

    settings-Keeps :
        (lifetime : String)
        → Keeps (Reconcile.from_result c r (Reconcile.token_settings r.parse_duration lifetime))
    settings-Keeps lifetime s ts i = i

    reconcile_local_user-Keeps :
        (draws : Draws r.Time) → Keeps (reconcile_local_user c r cr user draws)
    unfolding reconcile_local_user
    reconcile_local_user-Keeps draws =
        let lifetime = trim_space user.token_lifetime in
        Keeps->>
          (Cluster.on_timers c (
            if Reconcile.stops_timer user lifetime
            then stop_timer (timer_key cr.namespace user.name)
            else λ ts. ts))
          _ (stop_if (Reconcile.stops_timer user lifetime))
          (Keeps->>=
            (Reconcile.from_result c r (Reconcile.token_settings r.parse_duration lifetime)) _
            (settings-Keeps lifetime)
            (λ (kept, duration). reconcile_secret-Keeps kept duration draws))

  module _ (r : Runtime) (cr : ArgoCd) where
    reconcile_declared-Keeps :
        (users : List LocalUser) (draws : ℕ → Draws r.Time)
        → Keeps (Reconcile.reconcile_declared c r cr users draws)
    unfolding Reconcile.reconcile_declared
    reconcile_declared-Keeps [] draws = λ s ts i. i
    reconcile_declared-Keeps (user ∷ users) draws =
        let rest = reconcile_declared-Keeps users (λ n. draws (suc n)) in
        if-Keeps (contains (legacy_users cr.extra_config) user.name) _ _ rest (
          Keeps->> (reconcile_local_user c r cr user (draws 0)) _
            (reconcile_local_user-Keeps r cr user (draws 0)) rest)

  module _ (cr : ArgoCd) where
    cleanup_undeclared-Keeps : (xs : List Secret) → Keeps (Cleanup.cleanup_undeclared c cr xs)
    unfolding Cleanup.cleanup_undeclared
    cleanup_undeclared-Keeps [] = λ s ts i. i
    cleanup_undeclared-Keeps (x ∷ xs) =
        let name = value "user" x.data_map in
        if-Keeps (Cleanup.declares c cr.local_users name) _ _ (cleanup_undeclared-Keeps xs) (
          Keeps->> (Cluster.on_timers c (stop_timer (timer_key cr.namespace name))) _
            (stop-Keeps (timer_key cr.namespace name))
            (Keeps->> (cleanup_local_user c cr name (some x)) _
              (Keeps-of-Leaves (cleanup_local_user c cr name (some x))
                (cleanup_local_user-Leaves cr name (some x)))
              (cleanup_undeclared-Keeps xs)))

    cleanup_listed-Keeps : (xs : Listing Secret) → Keeps (Cleanup.cleanup_listed c cr xs)
    unfolding Cleanup.cleanup_listed
    cleanup_listed-Keeps (unlisted e) = λ s ts i. i
    cleanup_listed-Keeps (listed xs) = cleanup_undeclared-Keeps xs

    cleanup_local_users-Keeps : Keeps (cleanup_local_users c cr)
    unfolding cleanup_local_users
    cleanup_local_users-Keeps s ts = cleanup_listed-Keeps (c.list s cr.namespace) s ts

  module _ (r : Runtime) where
    reconcile_latest-Keeps :
        (draws : ℕ → Draws r.Time) (reply : Reply ArgoCd)
        → Keeps (Reconcile.reconcile_latest c r draws reply)
    unfolding Reconcile.reconcile_latest
    reconcile_latest-Keeps draws absent = λ s ts i. i
    reconcile_latest-Keeps draws (refused e) = λ s ts i. i
    reconcile_latest-Keeps draws (found cr) =
        Keeps->> (Reconcile.reconcile_declared c r cr cr.local_users draws) _
          (reconcile_declared-Keeps r cr cr.local_users draws) (cleanup_local_users-Keeps cr)

    -- A call of reconcileLocalUsers keeps the timers consistent, whatever the server answers.
    pub reconcile_local_users-IsConsistent :
        (cr : ArgoCd) (draws : ℕ → Draws r.Time) (s : c.State) (ts : Timers)
        → IsConsistent ts
        → IsConsistent (reconcile_local_users c r cr draws (s, ts)).0.1
    unfolding reconcile_local_users
    reconcile_local_users-IsConsistent cr draws s ts =
        reconcile_latest-Keeps draws (c.get_argocd s cr.namespace cr.name) s ts

-- What can happen to the server and the timers between two observations: a reconciliation of an
-- instance, by its controller or by a timer that fired; the deletion of an instance; and any change of
-- the server that others make.
pub data Step (c : Client) (r : Runtime) : Sys c → Sys c → Type 0 where
  reconcile :
      {s : Sys c} (cr : ArgoCd) (draws : ℕ → Draws r.Time)
      → Step c r s (reconcile_local_users c r cr draws s).0
  clean_up :
      {s : Sys c} (namespace : String) → Step c r s (s.0, cleanup_namespace_timers namespace s.1)
  others : {s : Sys c} (t : c.State) → Step c r s (t, s.1)

pub data Reach (c : Client) (r : Runtime) (s : Sys c) : Sys c → Type 0 where
  here : Reach c r s s
  next : {t u : Sys c} → Reach c r s t → Step c r t u → Reach c r s u

module _ (c : Client) (r : Runtime) where
  Step-IsConsistent : {s t : Sys c} → Step c r s t → IsConsistent s.1 → IsConsistent t.1
  Step-IsConsistent (reconcile {s} cr draws) i =
      reconcile_local_users-IsConsistent c r cr draws s.0 s.1 i
  Step-IsConsistent (clean_up {s} namespace) i =
      cleanup_namespace_timers-IsConsistent namespace s.1 i
  Step-IsConsistent (others t) i = i

  Reach-IsConsistent : {s t : Sys c} → IsConsistent s.1 → Reach c r s t → IsConsistent t.1
  Reach-IsConsistent i here = i
  Reach-IsConsistent i (next path step) = Step-IsConsistent step (Reach-IsConsistent i path)

  -- In every state that steps lead to from a new timer table and any server, a timer that would go on to
  -- reconcile when it runs is the one that the table holds for its key.
  pub fires_registered_of_Reach :
      {s : c.State} {t : Sys c} (id : ℕ)
      → Reach c r (s, new_timers) t
      → fires id t.1 ≡ true
      → (timer : Timer) × (lookup id t.1.heap ≡ some timer) × (lookup timer.key t.1.table ≡ some id)
  fires_registered_of_Reach {t} id path h =
      fires_registered t.1 id (Reach-IsConsistent new_timers-IsConsistent path) h
