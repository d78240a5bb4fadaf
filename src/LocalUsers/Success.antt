-- ===== src/LocalUsers/Success.antt =====
-- Whether the clean-up of a local user succeeds, in controllers/argocd/localusers.go.
use argocd_operator.Base.{
  String, ◌≡◌, ◌⊎◌, Option, none, some, found, written, missing, arith, if◌then◌else◌, string_eq,
  Bool, true, false, refl,
}
use argocd_operator.Base.Map.{erase}
use argocd_operator.Spec.{ArgoCd}
use argocd_operator.LocalUsers.Timers.{Timers}
use argocd_operator.LocalUsers.Cluster.{
  Secret, Client, Sys, Result, ok, err, continue, return, ◌>>=◌, ◌>>◌,
}
use argocd_operator.LocalUsers.Tokens.{argocd_secret_name, tokens_key}
use argocd_operator.LocalUsers.Cleanup.{
  in_extra_config, remove_token, delete_secret, cleanup_local_user,
}

module _ (c : Client) (cr : ArgoCd) where
  -- The server finds argocd-secret in this state, and carries out every update, and every delete of an
  -- object that it has.
  pub record IsServing (s : c.State) : Type 0 where
    pub argocd_secret : Secret
    pub finds : c.get s cr.namespace argocd_secret_name ≡ found argocd_secret
    pub updates : (t : c.State) (x : Secret) → (c.update t x).1 ≡ written
    pub deletes :
        (t : c.State) (x : Secret) → ((c.delete t x).1 ≡ written) ⊎ ((c.delete t x).1 ≡ missing)

  remove_token-ok :
      (name : String) (s : c.State) (ts : Timers)
      → IsServing s
      → (remove_token c cr name (s, ts)).1 ≡ ok tt
  unfolding remove_token ◌>>=◌
  remove_token-ok name s ts i = ground (
    arith,
    i.finds,
    i.updates s
        (record i.argocd_secret { data_map = erase (tokens_key name) i.argocd_secret.data_map }),
  )

  delete_secret-ok :
      (x : Option Secret) (s t : c.State) (ts : Timers)
      → IsServing s
      → (delete_secret c x (t, ts)).1 ≡ ok tt
  unfolding delete_secret
  delete_secret-ok none s t ts i = refl
  delete_secret-ok (some x) s t ts i = ground (arith, i.deletes t x)

  continue-ok :
      (x : Option Secret) (s : c.State) (t : Sys c × Result (Unit {0}))
      → IsServing s
      → t.1 ≡ ok tt
      → (continue t (λ _. delete_secret c x)).1 ≡ ok tt
  continue-ok x s ((t, ts), ok a) i h = delete_secret-ok x s t ts i
  continue-ok x s (t, err e) i h = absurd (ground arith)

  first_part-ok :
      (protected : Bool) (name : String) (s : c.State) (ts : Timers)
      → IsServing s
      → ((if protected then return tt else remove_token c cr name) (s, ts)).1 ≡ ok tt
  first_part-ok true name s ts i = refl
  first_part-ok false name s ts i = remove_token-ok name s ts i

  -- Where the server finds argocd-secret and carries out updates and deletes, the clean-up of a user
  -- returns no error, with and without a Secret of the user.
  pub cleanup_local_user-ok :
      (name : String) (x : Option Secret) (s : c.State) (ts : Timers)
      → IsServing s
      → (cleanup_local_user c cr name x (s, ts)).1 ≡ ok tt
  unfolding cleanup_local_user ◌>>◌
  cleanup_local_user-ok name x s ts i =
      continue-ok x s _ i (first_part-ok (in_extra_config cr name) name s ts i)
