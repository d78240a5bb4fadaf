-- ===== src/LocalUsers/Stability.antt =====
-- A user whose token is current is left alone: reconciliation has a fixed point.
use argocd_operator.Base.{
  String, ◌≡◌, refl, ◌≢◌, true, false, string_eq, if◌then◌else◌, Option, none, some, found, arith,
  ℤ, is_zero, ap, ◌∙◌,
}
use argocd_operator.Base.Map.{lookup}
use argocd_operator.Base.Text.{trim_space}
use argocd_operator.Spec.{ArgoCd, LocalUser}
use argocd_operator.LocalUsers.Timers.{Timers, timer_key, stop_timer}
use argocd_operator.LocalUsers.Cluster.{
  Secret, value, Client, Runtime, Draws, IsSound, ok, ◌>>=◌, >>=-ok, >>-ok, from_option, bad_expiry,
}
use argocd_operator.LocalUsers.Tokens.{
  argocd_secret_name, tokens_key, secret_name, auto_renew, user_data,
}
use argocd_operator.LocalUsers.Reconcile.{
  is_disabled, stops_timer, token_settings, is_stale, needs_token, update_auto_renew,
  schedule_existing, reconcile_existing, reconcile_reply, reconcile_secret, reconcile_local_user,
}

value-user_data :
    (user e lifetime renew jwt : String)
    → (value "expAt" (user_data user e lifetime renew jwt) ≡ e)
      × (value "tokenLifetime" (user_data user e lifetime renew jwt) ≡ lifetime)
      × (value "autoRenew" (user_data user e lifetime renew jwt) ≡ renew)
unfolding lookup string_eq
value-user_data user e lifetime renew jwt = (refl, refl, refl)

-- What the server, the timers and the clock show for a user whose token needs no work: the Secret
-- records the lifetime and the renewal of the specification, argocd-secret has the token, the token
-- has not expired if it is to be renewed, and the renewal is scheduled exactly if it is needed.
pub record IsCurrent (c : Client) (r : Runtime) (cr : ArgoCd) (user : LocalUser)
    (draws : Draws r.Time) (s : c.State) (ts : Timers) : Type 0 where
  pub lifetime : String
  pub duration : ℤ
  pub expires_at : ℤ
  pub jwt : String
  pub secret : Secret
  pub argocd_secret : Secret
  pub tokens : String
  pub settings :
      token_settings r.parse_duration (trim_space user.token_lifetime) ≡ ok (lifetime, duration)
  pub enabled : is_disabled user ≡ false
  pub has_secret : c.get s cr.namespace (secret_name user) ≡ found secret
  pub records :
      secret.data_map ≡ user_data user.name (r.format_int expires_at) lifetime (auto_renew user) jwt
  pub has_argocd_secret : c.get s cr.namespace argocd_secret_name ≡ found argocd_secret
  pub has_tokens : lookup (tokens_key user.name) argocd_secret.data_map ≡ some tokens
  pub bounded : is_zero expires_at ≡ true → is_zero duration ≡ true
  pub fresh :
      auto_renew user ≡ "true"
      → is_zero expires_at ≡ false
      → r.is_after draws.checked_at (r.of_unix expires_at) ≡ false
  pub scheduled :
      auto_renew user ≡ "true"
      → is_zero duration ≡ false
      → lookup (timer_key cr.namespace user.name) ts.table ≢ none
  pub unscheduled :
      stops_timer user (trim_space user.token_lifetime) ≡ true
      → lookup (timer_key cr.namespace user.name) ts.table ≡ none

module _ (c : Client) (r : Runtime) (q : IsSound r) (cr : ArgoCd) (user : LocalUser)
    (draws : Draws r.Time) (s : c.State) (ts : Timers) (i : IsCurrent c r cr user draws s ts) where
  not_stale : is_stale c r user i.lifetime i.duration i.expires_at draws i.secret ≡ false
  unfolding is_stale
  not_stale =
      let (e, l, a) =
        value-user_data user.name (r.format_int i.expires_at) i.lifetime (auto_renew user) i.jwt in
      rw (i.records, l) (ground arith)

  no_token_needed :
      needs_token c r cr user i.lifetime i.duration i.expires_at draws i.secret (s, ts)
      ≡ ((s, ts), ok false)
  unfolding needs_token ◌>>=◌
  no_token_needed = ground (arith, not_stale)

  no_update : update_auto_renew c r user i.secret (s, ts) ≡ ((s, ts), ok tt)
  unfolding update_auto_renew
  no_update =
      let (e, l, a) =
        value-user_data user.name (r.format_int i.expires_at) i.lifetime (auto_renew user) i.jwt in
      rw (i.records, a) (ground arith)

  no_schedule :
      schedule_existing c r cr user i.duration i.expires_at draws (s, ts) ≡ ((s, ts), ok tt)
  unfolding schedule_existing
  no_schedule = ground arith

  existing_unchanged :
      reconcile_existing c r cr user i.lifetime i.duration draws i.secret (s, ts) ≡ ((s, ts), ok tt)
  unfolding reconcile_existing
  existing_unchanged =
      >>=-ok _ _ (s, ts) (s, ts) i.expires_at
        (ap (λ (o : Option ℤ). from_option bad_expiry o (s, ts)) expiry_parsed)
      ∙ >>=-ok _ _ (s, ts) (s, ts) false no_token_needed
      ∙ >>-ok _ _ (s, ts) (s, ts) no_update
      ∙ no_schedule
    where
      expiry_parsed : r.parse_int (value "expAt" i.secret.data_map) ≡ some i.expires_at
      expiry_parsed =
          let (e, l, a) =
            value-user_data user.name (r.format_int i.expires_at) i.lifetime (auto_renew user)
              i.jwt in
          rw (i.records, e) (q.parse-format i.expires_at)

  secret_unchanged :
      reconcile_secret c r cr user i.lifetime i.duration draws (s, ts) ≡ ((s, ts), ok tt)
  unfolding reconcile_secret reconcile_reply
  secret_unchanged = rw (i.has_secret, reconcile_reply) (rw i.enabled existing_unchanged)

  nothing_to_stop :
      (if stops_timer user (trim_space user.token_lifetime)
          then stop_timer (timer_key cr.namespace user.name)
          else λ t. t)
        ts
      ≡ ts
  unfolding stop_timer
  nothing_to_stop = ground arith

  -- Over a sound runtime, reconciling a user whose token is current changes neither the server nor the
  -- timers and returns no error.
  pub reconcile_local_user-IsCurrent :
      reconcile_local_user c r cr user draws (s, ts) ≡ ((s, ts), ok tt)
  unfolding reconcile_local_user
  reconcile_local_user-IsCurrent =
      >>-ok _ _ (s, ts) (s, ts) (λ j. ((s, nothing_to_stop j), ok tt))
      ∙ >>=-ok _ _ (s, ts) (s, ts) (i.lifetime, i.duration) (λ j. ((s, ts), i.settings j))
      ∙ secret_unchanged
