-- ===== src/LocalUsers/IssueSuccess.antt =====
-- When issueToken of controllers/argocd/localusers.go succeeds.
use argocd_operator.Base.{
  String, ◌≡◌, refl, ◌≢◌, some, List, Reply, found, absent, refused, written, arith, ℤ, string_eq,
}
use argocd_operator.Base.Map.{lookup}
use argocd_operator.Spec.{ArgoCd, LocalUser}
use argocd_operator.LocalUsers.Timers.{Timers}
use argocd_operator.LocalUsers.Cluster.{
  Secret, Client, Runtime, Draws, Claims, Token, ok, ◌>>=◌, ◌>>◌,
}
use argocd_operator.LocalUsers.Tokens.{
  argocd_secret_name, secret_name, user_secret, signing_key, create_jwt_token, write_user_secret,
  add_token, issue_token,
}

-- The server answers a look-up of the user's Secret, finds argocd-secret with its signing key, carries
-- out every create and update, and finds argocd-secret again after one; the runtime gives a UUID, an
-- owner reference, a signature and an encoding.
pub record CanIssue (c : Client) (r : Runtime) (cr : ArgoCd) (user : LocalUser)
    (draws : Draws r.Time) (s : c.State) : Type 0 where
  pub answers : (e : String) → c.get s cr.namespace (secret_name user) ≢ refused e
  pub argocd_secret : Secret
  pub finds : c.get s cr.namespace argocd_secret_name ≡ found argocd_secret
  pub key : String
  pub has_key : lookup "server.secretkey" argocd_secret.data_map ≡ some key
  pub creates : (t : c.State) (x : Secret) → (c.create t x).1 ≡ written
  pub updates : (t : c.State) (x : Secret) → (c.update t x).1 ≡ written
  pub next : Secret → Secret
  pub finds_created :
      (x : Secret) → c.get (c.create s x).0 cr.namespace argocd_secret_name ≡ found (next x)
  pub finds_updated :
      (x : Secret) → c.get (c.update s x).0 cr.namespace argocd_secret_name ≡ found (next x)
  pub id : String
  pub has_id : draws.unique_id ≡ some id
  pub owned : Secret → Secret
  pub owns : (x : Secret) → r.set_controller_reference cr x ≡ some (owned x)
  pub signed : Claims r.Time → String
  pub signs : (claims : Claims r.Time) → r.sign claims key ≡ some (signed claims)
  pub encoded : List Token → String
  pub encodes : (tokens : List Token) → r.encode_tokens tokens ≡ some (encoded tokens)

module _ (c : Client) (r : Runtime) (cr : ArgoCd) (user : LocalUser) (draws : Draws r.Time)
    (s : c.State) (ts : Timers) (i : CanIssue c r cr user draws s) where
  -- Where the server and the runtime can do all that it asks of them, a call of issueToken returns no
  -- error.
  pub issue_token-ok :
      (lifetime : String) (duration : ℤ)
      → (issue_token c r cr user lifetime duration draws (s, ts)).1 ≡ ok tt
  unfolding issue_token ◌>>=◌ ◌>>◌ user_secret signing_key create_jwt_token write_user_secret
      add_token
  issue_token-ok lifetime duration = go (c.get s cr.namespace (secret_name user)) refl
    where
      go :
          (reply : Reply Secret)
          → c.get s cr.namespace (secret_name user) ≡ reply
          → (issue_token c r cr user lifetime duration draws (s, ts)).1 ≡ ok tt
      go (found x) e =
          grind
            (arith, e, i.finds, i.has_key, i.has_id, i.updates, i.finds_updated, i.signs, i.encodes)
      go absent e = grind (
        arith, e, i.finds, i.has_key, i.has_id, i.creates, i.updates, i.finds_created, i.owns,
        i.signs, i.encodes,
      )
      go (refused m) e = absurd (i.answers m e)
