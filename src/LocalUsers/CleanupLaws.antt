-- ===== src/LocalUsers/CleanupLaws.antt =====
-- What the clean-up of a local user leaves on the server.
use argocd_operator.Base.{
  String, ◌≡◌, refl, sym, subst, ◌⊎◌, inl, inr, ◌≢◌, Bool, true, false, string_eq, if◌then◌else◌,
  Option, none, some, Reply, found, absent, refused, arith,
}
use argocd_operator.Base.Map.{lookup, erase, lookup-erase}
use argocd_operator.Spec.{ArgoCd}
use argocd_operator.LocalUsers.Timers.{Timers}
use argocd_operator.LocalUsers.Cluster.{
  Secret, Client, IsLawful, Result, ok, err, Sys, Action, continue, return, ◌>>=◌, ◌>>◌,
}
use argocd_operator.LocalUsers.Tokens.{argocd_secret_name, tokens_key}
use argocd_operator.LocalUsers.Cleanup.{
  in_extra_config, remove_token, delete_secret, cleanup_local_user,
}

module _ (c : Client) where
  -- argocd-secret is stored without a token of the user.
  abbrev pub HasNoToken : c.State → String → String → Type 0
  HasNoToken s namespace user = elim (c.stored s namespace argocd_secret_name) [
    | none ↦ ⊥
    | some x ↦ lookup (tokens_key user) x.data_map ≡ none
  ]

module _ (c : Client) (l : IsLawful c) (cr : ArgoCd) where
  abbrev without : String → Secret → Secret
  without name x = record x { data_map = erase (tokens_key name) x.data_map }

  remove_token-HasNoToken :
      (name : String) (s : c.State) (ts : Timers)
      → (remove_token c cr name (s, ts)).1 ≡ ok tt
      → HasNoToken c (remove_token c cr name (s, ts)).0.0 cr.namespace name
  unfolding remove_token ◌>>=◌
  remove_token-HasNoToken name s ts h = go (c.get s cr.namespace argocd_secret_name) refl
    where
      go :
          (reply : Reply Secret)
          → c.get s cr.namespace argocd_secret_name ≡ reply
          → HasNoToken c (remove_token c cr name (s, ts)).0.0 cr.namespace name
      go (found x) e = ground (
        arith,
        l.get-found s cr.namespace argocd_secret_name x,
        l.update-written s (without name x),
        lookup-erase (tokens_key name) (tokens_key name) x.data_map,
      )
      go absent e = ground arith
      go (refused m) e = ground arith

  remove_token-other :
      (name other : String) (s : c.State) (ts : Timers)
      → other ≢ argocd_secret_name
      → c.stored (remove_token c cr name (s, ts)).0.0 cr.namespace other
        ≡ c.stored s cr.namespace other
  unfolding remove_token ◌>>=◌
  remove_token-other name other s ts h = go (c.get s cr.namespace argocd_secret_name) refl
    where
      go :
          (reply : Reply Secret)
          → c.get s cr.namespace argocd_secret_name ≡ reply
          → c.stored (remove_token c cr name (s, ts)).0.0 cr.namespace other
            ≡ c.stored s cr.namespace other
      go (found x) e = ground (
        arith,
        l.get-found s cr.namespace argocd_secret_name x,
        l.update-other s (without name x) cr.namespace other,
      )
      go absent e = ground arith
      go (refused m) e = ground arith

  delete_secret-HasNoToken :
      (name : String) (x : Secret) (s : c.State) (ts : Timers)
      → x.name ≢ argocd_secret_name
      → HasNoToken c s cr.namespace name
      → HasNoToken c (delete_secret c (some x) (s, ts)).0.0 cr.namespace name
  unfolding delete_secret
  delete_secret-HasNoToken name x s ts h k =
      let kept : c.stored (delete_secret c (some x) (s, ts)).0.0 cr.namespace argocd_secret_name
          ≡ c.stored s cr.namespace argocd_secret_name =
        ground (arith, l.delete-other s x cr.namespace argocd_secret_name) in
      rw (kept, HasNoToken) k

  delete_secret-none :
      (x : Secret) (s : c.State) (ts : Timers)
      → (delete_secret c (some x) (s, ts)).1 ≡ ok tt
      → c.stored (delete_secret c (some x) (s, ts)).0.0 x.namespace x.name ≡ none
  unfolding delete_secret
  delete_secret-none x s ts h = ground (arith, l.delete-written s x, l.delete-missing s x)

  -- The first part, behind its test.
  first_part : Bool → String → Action c (Unit {0})
  first_part protected name = if protected then return tt else remove_token c cr name

  first_part-HasNoToken :
      (protected : Bool) (name : String) (s : c.State) (ts : Timers)
      → (first_part protected name (s, ts)).1 ≡ ok tt
      → protected ≡ false
      → HasNoToken c (first_part protected name (s, ts)).0.0 cr.namespace name
  unfolding first_part
  first_part-HasNoToken true name s ts h e = absurd (ground arith)
  first_part-HasNoToken false name s ts h e = remove_token-HasNoToken name s ts h

  first_part-other :
      (protected : Bool) (name other : String) (s : c.State) (ts : Timers)
      → other ≢ argocd_secret_name
      → c.stored (first_part protected name (s, ts)).0.0 cr.namespace other
        ≡ c.stored s cr.namespace other
  unfolding first_part
  first_part-other true name other s ts h = refl
  first_part-other false name other s ts h = remove_token-other name other s ts h

  cleanup_local_user_lem :
      (name : String) (x : Option Secret) (s : Sys c)
      → cleanup_local_user c cr name x s
        ≡ continue (first_part (in_extra_config cr name) name s) (λ _. delete_secret c x)
  unfolding cleanup_local_user ◌>>◌ first_part
  cleanup_local_user_lem name x s = refl

  abbrev Cleaned : String → Secret → Sys c × Result (Unit {0}) → Type 0
  Cleaned name x t =
      (c.stored t.0.0 x.namespace x.name ≡ none)
      × (in_extra_config cr name ≡ false → HasNoToken c t.0.0 cr.namespace name)

  deleted-Cleaned :
      (name : String) (x : Secret) (t : Sys c × Result (Unit {0}))
      → x.name ≢ argocd_secret_name
      → (t.1 ≡ ok tt → in_extra_config cr name ≡ false → HasNoToken c t.0.0 cr.namespace name)
      → (continue t (λ _. delete_secret c (some x))).1 ≡ ok tt
      → Cleaned name x (continue t (λ _. delete_secret c (some x)))
  deleted-Cleaned name x ((s, ts), ok a) h p k =
      (delete_secret-none x s ts k, λ e. delete_secret-HasNoToken name x s ts h (p refl e))
  deleted-Cleaned name x (s, err e) h p k = absurd (ground arith)

  -- Over a lawful server, a clean-up that succeeds, with a Secret that is not argocd-secret, leaves no such Secret, and leaves
  -- argocd-secret without a token of the user unless the user has an API key in the extra configuration.
  pub cleanup_local_user-Cleaned :
      (name : String) (x : Secret) (s : c.State) (ts : Timers)
      → x.name ≢ argocd_secret_name
      → (cleanup_local_user c cr name (some x) (s, ts)).1 ≡ ok tt
      → Cleaned name x (cleanup_local_user c cr name (some x) (s, ts))
  cleanup_local_user-Cleaned name x s ts h =
      subst (λ t. t.1 ≡ ok tt → Cleaned name x t)
        (sym (cleanup_local_user_lem name (some x) (s, ts)))
        (deleted-Cleaned name x (first_part (in_extra_config cr name) name (s, ts)) h
          (first_part-HasNoToken (in_extra_config cr name) name s ts))

  -- The Secret is as it was, or argocd-secret holds no token of the user.
  abbrev pub InOrder : String → Secret → c.State → Sys c × Result (Unit {0}) → Type 0
  InOrder name x s t =
      (c.stored t.0.0 cr.namespace x.name ≡ c.stored s cr.namespace x.name)
      ⊎ HasNoToken c t.0.0 cr.namespace name

  deleted-InOrder :
      (name : String) (x : Secret) (s : c.State) (t : Sys c × Result (Unit {0}))
      → x.name ≢ argocd_secret_name
      → (t.1 ≡ ok tt → HasNoToken c t.0.0 cr.namespace name)
      → c.stored t.0.0 cr.namespace x.name ≡ c.stored s cr.namespace x.name
      → InOrder name x s (continue t (λ _. delete_secret c (some x)))
  deleted-InOrder name x s ((t, ts), ok a) h p k =
      inr (delete_secret-HasNoToken name x t ts h (p refl))
  deleted-InOrder name x s (t, err e) h p k = inl k

  -- Over a lawful server, whatever the outcome of the clean-up of a user without an API key in the extra configuration, for a
  -- Secret that is not argocd-secret: what the server stores under the Secret's name is as it was, or
  -- argocd-secret is stored without a token of the user. The token goes first.
  pub cleanup_local_user-InOrder :
      (name : String) (x : Secret) (s : c.State) (ts : Timers)
      → x.name ≢ argocd_secret_name
      → in_extra_config cr name ≡ false
      → InOrder name x s (cleanup_local_user c cr name (some x) (s, ts))
  cleanup_local_user-InOrder name x s ts h e = rw (cleanup_local_user_lem name (some x) (s, ts)) (
      deleted-InOrder name x s (first_part (in_extra_config cr name) name (s, ts)) h
        (λ k. first_part-HasNoToken (in_extra_config cr name) name s ts k e)
        (first_part-other (in_extra_config cr name) name x.name s ts h))
