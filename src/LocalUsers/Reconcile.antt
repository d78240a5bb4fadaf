-- ===== src/LocalUsers/Reconcile.antt =====
-- reconcileLocalUser and reconcileLocalUsers of controllers/argocd/localusers.go. The lock is held
-- for the whole call, so a call is one step.
use argocd_operator.Base.{
  ℕ, suc, String, Bool, true, false, not, ◌&&◌, ◌||◌, ◌==◌, string_eq, contains, if◌then◌else◌,
  Option, none, some, List, [], ◌∷◌, ℤ, pos, is_zero, is_positive, is_negative, Reply, found,
  absent, refused,
}
use argocd_operator.Base.Text.{trim_space}
use argocd_operator.Base.Map.{lookup, insert}
use argocd_operator.Spec.{ArgoCd, LocalUser}
use argocd_operator.LocalUsers.Timers.{timer_key, stop_timer, start_or_restart_timer}
use argocd_operator.LocalUsers.Cluster.{
  Secret, value, Client, Runtime, Draws, Result, ok, err, Action, return, fail, from_option,
  read_secret, update_secret, on_timers, api_error, bad_lifetime, negative_lifetime, bad_expiry,
  ◌>>=◌, ◌>>◌,
}
use argocd_operator.LocalUsers.Tokens.{
  argocd_secret_name, tokens_key, secret_name, auto_renew, issue_token,
}
use argocd_operator.LocalUsers.Cleanup.{cleanup_local_user, cleanup_local_users, legacy_users}

-- `b != nil && !*b`
abbrev pub is_off : Option Bool → Bool
is_off none = false
is_off (some b) = not b

-- Whether the secret and the token should not exist.
abbrev pub is_disabled : LocalUser → Bool
is_disabled user = is_off user.api_key || is_off user.enabled

-- The reasons to stop the timer, for a trimmed lifetime.
unfoldable pub stops_timer : LocalUser → String → Bool
stops_timer user lifetime =
    is_off user.enabled
    || is_off user.auto_renew_token
    || lifetime == ""
    || lifetime == "0"
    || is_off user.api_key

-- A user's lifetime as the Secret records it, and its duration.
unfoldable pub token_settings : (String → Option ℤ) → String → Result (String × ℤ)
token_settings parse lifetime =
    if lifetime == "" then ok ("0h", pos 0) else (elim (parse lifetime) [
      | none ↦ err bad_lifetime
      | some d ↦
          if is_negative d
          then err negative_lifetime
          else (if is_zero d then ok ("0h", d) else ok (lifetime, d))
    ])

module _ (c : Client) (r : Runtime) where
  -- After a token is issued its renewal is scheduled, if the token ends and is to be renewed.
  unfoldable pub schedule_new : ArgoCd → LocalUser → ℤ → Action c (Unit {0})
  unfolding start_or_restart_timer
  schedule_new cr user duration =
      if is_positive duration && auto_renew user == "true"
      then on_timers c (start_or_restart_timer (timer_key cr.namespace user.name) duration)
      else return tt

  -- The tests that need only the user's Secret.
  unfoldable pub is_stale : LocalUser → String → ℤ → ℤ → Draws r.Time → Secret → Bool
  unfolding lookup
  is_stale user lifetime duration expires_at draws secret =
      not (lifetime == value "tokenLifetime" secret.data_map)
      || (is_zero expires_at && not (is_zero duration))
      || (auto_renew user == "true"
          && not (is_zero expires_at)
          && r.is_after draws.checked_at (r.of_unix expires_at))

  -- Whether the token is to be replaced: argocd-secret is read only if the user's Secret is current.
  unfoldable pub needs_token :
      ArgoCd → LocalUser → String → ℤ → ℤ → Draws r.Time → Secret → Action c Bool
  needs_token cr user lifetime duration expires_at draws secret =
      if is_stale user lifetime duration expires_at draws secret then return true else (do
        argocd_secret ← read_secret c cr.namespace argocd_secret_name
        elim (lookup (tokens_key user.name) argocd_secret.data_map) [
          | none ↦ return true
          | some _ ↦ return false
        ])

  -- The Secret follows a change of `autoRenewToken`.
  unfoldable pub update_auto_renew : LocalUser → Secret → Action c (Unit {0})
  unfolding lookup insert
  update_auto_renew user secret =
      if value "autoRenew" secret.data_map == auto_renew user
      then return tt
      else update_secret c
          (record secret { data_map = insert "autoRenew" (auto_renew user) secret.data_map })

  -- The renewal is scheduled if no timer is registered.
  unfoldable pub schedule_existing : ArgoCd → LocalUser → ℤ → ℤ → Draws r.Time → Action c (Unit {0})
  unfolding lookup start_or_restart_timer
  schedule_existing cr user duration expires_at draws (s, ts) =
      if auto_renew user == "true" && not (is_zero duration)
      then (elim (lookup (timer_key cr.namespace user.name) ts.table) [
        | some _ ↦ ((s, ts), ok tt)
        | none ↦ (
          (
            s,
            start_or_restart_timer (timer_key cr.namespace user.name)
                (if is_zero expires_at
                  then duration
                  else r.until (r.of_unix expires_at) draws.scheduled_at)
                ts,
          ),
          ok tt,
        )
      ])
      else ((s, ts), ok tt)

  unfoldable pub renew : ArgoCd → LocalUser → String → ℤ → Draws r.Time → Action c (Unit {0})
  renew cr user lifetime duration draws = do
    issue_token c r cr user lifetime duration draws
    schedule_new cr user duration

  -- The part for an enabled user whose Secret exists.
  unfoldable pub reconcile_existing :
      ArgoCd → LocalUser → String → ℤ → Draws r.Time → Secret → Action c (Unit {0})
  reconcile_existing cr user lifetime duration draws secret = do
    expires_at ← from_option bad_expiry (r.parse_int (value "expAt" secret.data_map))
    needed ← needs_token cr user lifetime duration expires_at draws secret
    if needed
        then renew cr user lifetime duration draws
        else (do update_auto_renew user secret; schedule_existing cr user duration expires_at draws)

  -- The part after the look-up of the user's Secret.
  unfoldable pub reconcile_reply :
      ArgoCd → LocalUser → String → ℤ → Draws r.Time → Reply Secret → Action c (Unit {0})
  reconcile_reply cr user lifetime duration draws (refused e) = fail (api_error e)
  reconcile_reply cr user lifetime duration draws absent =
      if is_disabled user
      then cleanup_local_user c cr user.name none
      else renew cr user lifetime duration draws
  reconcile_reply cr user lifetime duration draws (found secret) =
      if is_disabled user
      then cleanup_local_user c cr user.name (some secret)
      else reconcile_existing cr user lifetime duration draws secret

  unfoldable pub reconcile_secret :
      ArgoCd → LocalUser → String → ℤ → Draws r.Time → Action c (Unit {0})
  reconcile_secret cr user lifetime duration draws (s, ts) =
      reconcile_reply cr user lifetime duration draws (c.get s cr.namespace (secret_name user))
        (s, ts)

  abbrev pub from_result : {A : Type 0} → Result A → Action c A
  from_result x s = (s, x)

  unfoldable pub reconcile_local_user : ArgoCd → LocalUser → Draws r.Time → Action c (Unit {0})
  reconcile_local_user cr user draws = do
    let trimmed = trim_space user.token_lifetime
    on_timers c (
        if stops_timer user trimmed then stop_timer (timer_key cr.namespace user.name) else λ ts.
        ts)
    (lifetime, duration) ← from_result (token_settings r.parse_duration trimmed)
    reconcile_secret cr user lifetime duration draws

  -- The loop over the declared users. `draws n` are the readings for the n-th of them.
  unfoldable pub reconcile_declared :
      ArgoCd → List LocalUser → (ℕ → Draws r.Time) → Action c (Unit {0})
  unfolding reconcile_local_user legacy_users
  reconcile_declared cr [] draws = return tt
  reconcile_declared cr (user ∷ users) draws =
      let rest = reconcile_declared cr users (λ n. draws (suc n)) in
      if contains (legacy_users cr.extra_config) user.name
      then rest
      else (do reconcile_local_user cr user (draws 0); rest)

  -- The resource is read again: one that is gone needs no work.
  unfoldable pub reconcile_latest : (ℕ → Draws r.Time) → Reply ArgoCd → Action c (Unit {0})
  unfolding reconcile_declared cleanup_local_users
  reconcile_latest draws absent = return tt
  reconcile_latest draws (refused e) = fail (api_error e)
  reconcile_latest draws (found cr) = do
    reconcile_declared cr cr.local_users draws
    cleanup_local_users c cr

  unfoldable pub reconcile_local_users : ArgoCd → (ℕ → Draws r.Time) → Action c (Unit {0})
  unfolding reconcile_latest
  reconcile_local_users cr draws (s, ts) =
      reconcile_latest draws (c.get_argocd s cr.namespace cr.name) (s, ts)
