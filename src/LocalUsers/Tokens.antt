-- ===== src/LocalUsers/Tokens.antt =====
-- issueToken, getArgoCDSigningKey, createJWTToken and the names of the Secrets, from
-- controllers/argocd/localusers.go, with NewSecretWithName of controllers/argoutil/secret.go and
-- TruncateWithHash of controllers/argoutil/resource.go, by which the name is made.
use argocd_operator.Base.{
  String, ◌<>◌, Bool, true, false, string_eq, if◌then◌else◌, Option, none, some, [], ◌∷◌, ℤ, pos,
  is_positive, found, absent, refused,
}
use argocd_operator.Base.Map.{Map, lookup, insert}
use argocd_operator.Names.{truncate_with_hash, max_label_length}
use argocd_operator.Spec.{ArgoCd, LocalUser}
use argocd_operator.LocalUsers.Cluster.{
  Secret, Client, Runtime, Token, Draws, ok, err, Action, from_option, read_secret, update_secret,
  create_secret, no_unique_id, no_signing_key, sign_failed, encode_failed, owner_failed, api_error,
  ◌>>=◌, ◌>>◌,
}

abbrev pub argocd_secret_name : String
argocd_secret_name = "argocd-secret"

abbrev pub component_label : String
component_label = "app.kubernetes.io/component"

abbrev pub local_user_component : String
local_user_component = "local-users"

-- secretNameLocalUser
unfoldable pub secret_name : LocalUser → String
secret_name user = user.name <> "-local-user"

-- The key of a user's tokens in argocd-secret.
abbrev pub tokens_key : String → String
tokens_key name = "accounts." <> name <> ".tokens"

-- `user.AutoRenewToken == nil || *user.AutoRenewToken`
abbrev pub auto_renew : LocalUser → String
auto_renew user = elim user.auto_renew_token [
  | none ↦ "true"
  | some b ↦ if b then "true" else "false"
]

-- The data of a user's Secret.
abbrev pub user_data : String → String → String → String → String → Map String String
user_data user expires_at lifetime renew token =
    ("user", user)
    ∷ ("expAt", expires_at)
    ∷ ("tokenLifetime", lifetime)
    ∷ ("autoRenew", renew)
    ∷ ("apiToken", token)
    ∷ []

module _ (r : Runtime) where
  -- NewSecretWithName, with the component label that issueToken adds
  unfoldable pub new_secret : ArgoCd → String → Secret
  unfolding truncate_with_hash
  new_secret cr name =
      let truncated = truncate_with_hash r.hash name max_label_length in
      record {
        name = truncated;
        namespace = cr.namespace;
        labels =
            ("app.kubernetes.io/name", truncated)
            ∷ ("app.kubernetes.io/part-of", "argocd")
            ∷ ("app.kubernetes.io/managed-by", cr.name)
            ∷ ("operator.argoproj.io/tracked-by", "argocd")
            ∷ (component_label, local_user_component)
            ∷ [];
        data_map = [];
      }

  unfoldable pub create_jwt_token : String → r.Time → ℤ → String → String → Option String
  create_jwt_token subject issued_at expires_in id key =
      r.sign
        (record {
          issued_at = issued_at;
          issuer = "argocd";
          not_before = issued_at;
          subject = subject;
          id = id;
          expires_at = if is_positive expires_in then some (r.add issued_at expires_in) else none;
        })
        key

  -- `issuedAt.Add(tokenDuration).Unix()`, or 0 for a token with no end
  abbrev pub expiry : r.Time → ℤ → ℤ
  expiry issued_at duration =
      if is_positive duration then r.unix (r.add issued_at duration) else pos 0

module _ (c : Client) (r : Runtime) where
  unfoldable pub signing_key : ArgoCd → Action c String
  unfolding lookup
  signing_key cr = do
    secret ← read_secret c cr.namespace argocd_secret_name
    from_option no_signing_key (lookup "server.secretkey" secret.data_map)

  -- The user's Secret, if the server has it, or a new one with its owner; the flag says which.
  unfoldable pub user_secret : ArgoCd → LocalUser → Action c (Bool × Secret)
  unfolding new_secret secret_name
  user_secret cr user (s, ts) = elim (c.get s cr.namespace (secret_name user)) [
    | found x ↦ ((s, ts), ok (true, x))
    | refused e ↦ ((s, ts), err (api_error e))
    | absent ↦ elim (r.set_controller_reference cr (new_secret r cr (secret_name user))) [
      | none ↦ ((s, ts), err owner_failed)
      | some x ↦ ((s, ts), ok (false, x))
    ]
  ]

  -- The last part: the entry of the token in argocd-secret.
  unfoldable pub add_token : ArgoCd → LocalUser → Token → Action c (Unit {0})
  unfolding insert
  add_token cr user token = do
    tokens ← from_option encode_failed (r.encode_tokens (token ∷ []))
    secret ← read_secret c cr.namespace argocd_secret_name
    update_secret c
        (record secret { data_map = insert (tokens_key user.name) tokens secret.data_map })

  unfoldable pub write_user_secret : Bool → Secret → Action c (Unit {0})
  write_user_secret exists x = if exists then update_secret c x else create_secret c x

  unfoldable pub issue_token : ArgoCd → LocalUser → String → ℤ → Draws r.Time → Action c (Unit {0})
  issue_token cr user lifetime duration draws = do
    (exists, secret) ← user_secret cr user
    id ← from_option no_unique_id draws.unique_id
    let expires_at = expiry r draws.issued_at duration
    key ← signing_key cr
    jwt ←
        from_option sign_failed
          (create_jwt_token r (user.name <> ":apiKey") draws.issued_at duration id key)
    write_user_secret exists (record secret {
      data_map = user_data user.name (r.format_int expires_at) lifetime (auto_renew user) jwt;
    })
    add_token cr user
        (record { id = id; issued_at = r.unix draws.issued_at; expires_at = expires_at })
