-- ===== src/LocalUsers/Cleanup.antt =====
-- cleanupLocalUser, cleanupLocalUsers and localUsersInExtraConfig of
-- controllers/argocd/localusers.go.
use argocd_operator.Base.{
  String, ◌<>◌, starts_with, Bool, false, not, ◌&&◌, ◌||◌, ◌==◌, string_eq, if◌then◌else◌, Option,
  none, some, List, [], ◌∷◌, Listing, listed, unlisted, written, missing, rejected,
}
use argocd_operator.Base.Text.{has_part, has_suffix, drop}
use argocd_operator.Base.Map.{Map, lookup, erase}
use argocd_operator.Spec.{ArgoCd, LocalUser}
use argocd_operator.LocalUsers.Timers.{timer_key, stop_timer}
use argocd_operator.LocalUsers.Cluster.{
  Secret, value, Client, ok, err, Action, return, fail, read_secret, update_secret, on_timers,
  api_error, ◌>>=◌, ◌>>◌,
}
use argocd_operator.LocalUsers.Tokens.{argocd_secret_name, tokens_key}

-- `strings.Contains(cr.Spec.ExtraConfig["accounts."+name], "apiKey")`
unfoldable pub in_extra_config : ArgoCd → String → Bool
unfolding lookup has_part
in_extra_config cr name = has_part (value ("accounts." <> name) cr.extra_config) "apiKey"

-- localUsersInExtraConfig: the users whose names the keys of the configuration give.
unfoldable pub legacy_users : Map String String → List String
unfolding has_suffix has_part drop
legacy_users [] = []
legacy_users ((key, _) ∷ m) =
    let rest = legacy_users m in
    if starts_with key "accounts." && not (has_suffix key ".enabled")
    then (if has_part (drop 9 key) "." then rest else drop 9 key ∷ rest)
    else rest

module _ (c : Client) where
  -- The first part: the token leaves argocd-secret.
  unfoldable pub remove_token : ArgoCd → String → Action c (Unit {0})
  unfolding lookup erase
  remove_token cr name = do
    secret ← read_secret c cr.namespace argocd_secret_name
    elim (lookup (tokens_key name) secret.data_map) [
      | none ↦ return tt
      | some _ ↦
          update_secret c (record secret { data_map = erase (tokens_key name) secret.data_map })
    ]

  -- The second part: the user's Secret, if there is one, is deleted. It may be gone already.
  unfoldable pub delete_secret : Option Secret → Action c (Unit {0})
  delete_secret none (s, ts) = ((s, ts), ok tt)
  delete_secret (some x) (s, ts) =
      let (t, w) = c.delete s x in
      ((t, ts), elim w [ written ↦ ok tt | missing ↦ ok tt | rejected e ↦ err (api_error e) ])

  unfoldable pub cleanup_local_user : ArgoCd → String → Option Secret → Action c (Unit {0})
  unfolding in_extra_config remove_token delete_secret
  cleanup_local_user cr name secret = do
    if in_extra_config cr name then return tt else remove_token cr name
    delete_secret secret

  abbrev pub declares : List LocalUser → String → Bool
  declares [] name = false
  declares (user ∷ users) name = name == user.name || declares users name

  -- The loop over the listed Secrets.
  unfoldable pub cleanup_undeclared : ArgoCd → List Secret → Action c (Unit {0})
  unfolding cleanup_local_user lookup stop_timer
  cleanup_undeclared cr [] = return tt
  cleanup_undeclared cr (x ∷ xs) =
      let name = value "user" x.data_map in
      let rest = cleanup_undeclared cr xs in
      if declares cr.local_users name then rest else (do
        on_timers c (stop_timer (timer_key cr.namespace name))
        cleanup_local_user cr name (some x)
        rest)

  unfoldable pub cleanup_listed : ArgoCd → Listing Secret → Action c (Unit {0})
  unfolding cleanup_undeclared
  cleanup_listed cr (unlisted e) = fail (api_error e)
  cleanup_listed cr (listed xs) = cleanup_undeclared cr xs

  -- `list` is the list of the Secrets of the namespace with the component label of the local users.
  unfoldable pub cleanup_local_users : ArgoCd → Action c (Unit {0})
  unfolding cleanup_listed
  cleanup_local_users cr (s, ts) = cleanup_listed cr (c.list s cr.namespace) (s, ts)
