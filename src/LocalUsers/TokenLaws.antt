-- ===== src/LocalUsers/TokenLaws.antt =====
-- What issueToken leaves on the server when it succeeds.
use argocd_operator.Base.{
  String, ◌≡◌, refl, subst, ◌∙◌, ◌≢◌, Bool, true, false, string_eq, Option, none, some, Reply,
  found, absent, refused, arith, ℤ, [], ◌∷◌,
}
use argocd_operator.Base.Map.{Map, lookup, insert, lookup-insert}
use argocd_operator.Base.Text.{has_suffix}
use argocd_operator.Base.TextLaws.{has_suffix-append}
use argocd_operator.Names.{truncate_with_hash}
use argocd_operator.Spec.{ArgoCd, LocalUser}
use argocd_operator.LocalUsers.Timers.{Timers}
use argocd_operator.LocalUsers.Cluster.{
  Secret, Client, Runtime, Token, Draws, IsLawful, IsSound, ok, Sys, Ends, Ends->>=, Ends->>,
  from_option-ok, ◌>>=◌, no_unique_id,
}
use argocd_operator.LocalUsers.Tokens.{
  argocd_secret_name, tokens_key, secret_name, auto_renew, user_data, new_secret, expiry,
  user_secret, add_token, write_user_secret, issue_token,
}

module _ (c : Client) (r : Runtime) where
  -- argocd-secret is stored with the encoded token under the user's key.
  abbrev pub HasToken : c.State → String → String → Token → Type 0
  HasToken s namespace user token = elim (c.stored s namespace argocd_secret_name) [
    | none ↦ ⊥
    | some x ↦ elim (r.encode_tokens (token ∷ [])) [
      | none ↦ ⊥
      | some tokens ↦ lookup (tokens_key user) x.data_map ≡ some tokens
    ]
  ]

  -- The user's Secret is stored with this data.
  abbrev pub HasData : c.State → String → String → Map String String → Type 0
  HasData s namespace name m = elim (c.stored s namespace name) [
    | none ↦ ⊥
    | some x ↦ x.data_map ≡ m
  ]

module _ (c : Client) (r : Runtime) (l : IsLawful c) (cr : ArgoCd) (user : LocalUser) where
  abbrev with_tokens : String → Secret → Secret
  with_tokens tokens x = record x { data_map = insert (tokens_key user.name) tokens x.data_map }

  add_token-HasToken :
      (token : Token) (s : c.State) (ts : Timers)
      → (add_token c r cr user token (s, ts)).1 ≡ ok tt
      → HasToken c r (add_token c r cr user token (s, ts)).0.0 cr.namespace user.name token
  unfolding add_token ◌>>=◌
  add_token-HasToken token s ts h =
      go (r.encode_tokens (token ∷ [])) refl (c.get s cr.namespace argocd_secret_name) refl
    where
      go :
          (o : Option String)
          → r.encode_tokens (token ∷ []) ≡ o
          → (reply : Reply Secret) → c.get s cr.namespace argocd_secret_name ≡ reply
          → HasToken c r (add_token c r cr user token (s, ts)).0.0 cr.namespace user.name token
      go none d reply e = ground arith
      go (some tokens) d (found x) e = ground (
        arith,
        l.get-found s cr.namespace argocd_secret_name x,
        l.update-written s (with_tokens tokens x),
        lookup-insert (tokens_key user.name) (tokens_key user.name) tokens x.data_map,
      )
      go (some tokens) d absent e = ground arith
      go (some tokens) d (refused m) e = ground arith

  add_token-other :
      (token : Token) (other : String) (s : c.State) (ts : Timers)
      → other ≢ argocd_secret_name
      → c.stored (add_token c r cr user token (s, ts)).0.0 cr.namespace other
        ≡ c.stored s cr.namespace other
  unfolding add_token ◌>>=◌
  add_token-other token other s ts h =
      go (r.encode_tokens (token ∷ [])) refl (c.get s cr.namespace argocd_secret_name) refl
    where
      go :
          (o : Option String)
          → r.encode_tokens (token ∷ []) ≡ o
          → (reply : Reply Secret) → c.get s cr.namespace argocd_secret_name ≡ reply
          → c.stored (add_token c r cr user token (s, ts)).0.0 cr.namespace other
            ≡ c.stored s cr.namespace other
      go none d reply e = ground arith
      go (some tokens) d (found x) e = ground (
        arith,
        l.get-found s cr.namespace argocd_secret_name x,
        l.update-other s (with_tokens tokens x) cr.namespace other,
      )
      go (some tokens) d absent e = ground arith
      go (some tokens) d (refused m) e = ground arith

  write_user_secret-stored :
      (exists : Bool) (x : Secret) (s : c.State) (ts : Timers)
      → (write_user_secret c r exists x (s, ts)).1 ≡ ok tt
      → c.stored (write_user_secret c r exists x (s, ts)).0.0 x.namespace x.name ≡ some x
  unfolding write_user_secret
  write_user_secret-stored true x s ts h = ground (arith, l.update-written s x)
  write_user_secret-stored false x s ts h = ground (arith, l.create-written s x)

  module _ (q : IsSound r)
      (short : truncate_with_hash r.hash (secret_name user) 63 ≡ secret_name user) where
    user_secret-place :
        (s : c.State) (ts : Timers) (exists : Bool) (x : Secret)
        → (user_secret c r cr user (s, ts)).1 ≡ ok (exists, x)
        → (x.namespace ≡ cr.namespace) × (x.name ≡ secret_name user)
    unfolding user_secret new_secret
    user_secret-place s ts exists x h = go (c.get s cr.namespace (secret_name user)) refl
      where
        go :
            (reply : Reply Secret)
            → c.get s cr.namespace (secret_name user) ≡ reply
            → (x.namespace ≡ cr.namespace) × (x.name ≡ secret_name user)
        go (found y) e = ground (arith, l.get-found s cr.namespace (secret_name user) y)
        go absent e = ground (arith, q.owned cr (new_secret r cr (secret_name user)) x)
        go (refused m) e = absurd (ground arith)

-- The name of a user's Secret is never that of argocd-secret.
pub secret_name-ne : (user : LocalUser) → secret_name user ≢ argocd_secret_name
unfolding secret_name has_suffix string_eq
secret_name-ne user e =
    let suffix : has_suffix argocd_secret_name "-local-user" ≡ true =
      subst (λ s. has_suffix s "-local-user" ≡ true) e
        (has_suffix-append user.name "-local-user") in
    cc

-- What a call of issueToken promises: the Secret of the user records the user, the expiry, the
-- lifetime and the renewal, and argocd-secret holds a token with the same expiry.
pub record Issued (c : Client) (r : Runtime) (cr : ArgoCd) (user : LocalUser) (lifetime : String)
    (duration : ℤ) (draws : Draws r.Time) (s : c.State) : Type 0 where
  pub id : String
  pub jwt : String
  pub drawn : draws.unique_id ≡ some id
  pub user_has : HasData c r s cr.namespace (secret_name user) (
      user_data user.name
        (r.format_int (expiry r draws.issued_at duration))
        lifetime
        (auto_renew user)
        jwt)
  pub argocd_has : HasToken c r s cr.namespace user.name (record {
    id = id;
    issued_at = r.unix draws.issued_at;
    expires_at = expiry r draws.issued_at duration;
  })

module _ (c : Client) (r : Runtime) (l : IsLawful c) (q : IsSound r) (cr : ArgoCd)
    (user : LocalUser)
    (short : truncate_with_hash r.hash (secret_name user) 63 ≡ secret_name user) where
  -- The data that a successful run writes.
  abbrev written_data : String → ℤ → Draws r.Time → String → Map String String
  written_data lifetime duration draws jwt =
      user_data user.name (r.format_int (expiry r draws.issued_at duration)) lifetime
        (auto_renew user) jwt

  -- The last two steps: the user's Secret is written and the token is added.
  finish-Issued :
      (lifetime : String) (duration : ℤ) (draws : Draws r.Time) (id jwt : String) (x : Secret)
      (s : c.State) (ts : Timers)
      → draws.unique_id ≡ some id
      → (x.namespace ≡ cr.namespace) × (x.name ≡ secret_name user)
      → c.stored s x.namespace x.name
        ≡ some (record x { data_map = written_data lifetime duration draws jwt })
      → (add_token c r cr user
          (record {
            id = id;
            issued_at = r.unix draws.issued_at;
            expires_at = expiry r draws.issued_at duration;
          })
          (s, ts)).1
        ≡ ok tt
      → Issued c r cr user lifetime duration draws
          (add_token c r cr user
            (record {
              id = id;
              issued_at = r.unix draws.issued_at;
              expires_at = expiry r draws.issued_at duration;
            })
            (s, ts)).0.0
  finish-Issued lifetime duration draws id jwt x s ts drawn place stored h =
      let token : Token = record {
        id = id;
        issued_at = r.unix draws.issued_at;
        expires_at = expiry r draws.issued_at duration;
      } in
      let kept : c.stored (add_token c r cr user token (s, ts)).0.0 cr.namespace (secret_name user)
          ≡ some (record x { data_map = written_data lifetime duration draws jwt }) =
        add_token-other c r l cr user token (secret_name user) s ts (secret_name-ne user)
        ∙ ground arith in
      record {
        id = id;
        jwt = jwt;
        drawn = drawn;
        user_has = rw (kept, HasData);
        argocd_has = add_token-HasToken c r l cr user token s ts h;
      }

  issue_token-Ends :
      (lifetime : String) (duration : ℤ) (draws : Draws r.Time) (s : c.State) (ts : Timers)
      → Ends
          (λ (t : Sys c). Issued c r cr user lifetime duration draws t.0)
          (issue_token c r cr user lifetime duration draws (s, ts))
  unfolding issue_token
  issue_token-Ends lifetime duration draws s ts =
      Ends->>= Q (user_secret c r cr user) _ (s, ts)
        (λ (exists, x) h1. Ends->>= Q _ _ _ (λ id h2. Ends->>= Q _ _ _ (λ key h3.
          Ends->>= Q _ _ _ (λ jwt h4. Ends->> Q _ _ _ (λ h5 _ h6.
            finish-Issued lifetime duration draws id jwt x _ _
              (from_option-ok no_unique_id draws.unique_id _ id h2)
              (user_secret-place c r l cr user q short s ts exists x h1)
              (write_user_secret-stored c r l cr user exists
                (record x { data_map = written_data lifetime duration draws jwt }) _ _ h5)
              h6)))))
    where
      Q : Sys c → Type 0
      Q t = Issued c r cr user lifetime duration draws t.0

  -- Over a lawful server and a sound runtime, a call of issueToken that returns no error, for a user
  -- whose Secret's name is not cut, leaves the user's Secret and the token in argocd-secret, and both
  -- record one expiry.
  pub issue_token-Issued :
      (lifetime : String) (duration : ℤ) (draws : Draws r.Time) (s : c.State) (ts : Timers)
      → (issue_token c r cr user lifetime duration draws (s, ts)).1 ≡ ok tt
      → Issued c r cr user lifetime duration draws
          (issue_token c r cr user lifetime duration draws (s, ts)).0.0
  issue_token-Issued lifetime duration draws s ts = issue_token-Ends lifetime duration draws s ts tt
