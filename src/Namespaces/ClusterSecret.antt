-- ===== src/Namespaces/ClusterSecret.antt =====
-- The secret by which an instance manages its own cluster: generateSortedManagedNamespaceListForArgoCDCR,
-- combineClusterSecretNamespacesWithManagedNamespaces, getClusterSecrets and
-- reconcileClusterPermissionsSecret of controllers/argocd/secret.go,
-- deleteManagedNamespaceFromClusterSecret of controllers/argocd/util.go and
-- controllers/argoutil/namespace.go.
pub mod Laws
pub mod Local
pub mod Removal
pub mod Stored
use argocd_operator.Base.{
  String, ◌<>◌, Bool, true, false, not, ◌&&◌, ◌||◌, ◌==◌, contains, string_eq, if◌then◌else◌,
  Option, none, some, List, [], ◌∷◌, map, Listing, listed, unlisted, Run, inl, inr, done, failed,
  Outcome,
}
use argocd_operator.Base.Text.{trim_space}
use argocd_operator.Base.Commas.{split, join, sort}
use argocd_operator.Base.Map.{Map, lookup, insert, erase}
use argocd_operator.Names.{truncate_with_hash, truncate_cr_name, max_label_length}
use argocd_operator.ClientWrapper.{secret_type_label, tracked_by_label, app_name}
use argocd_operator.LocalUsers.Cluster.{Secret, value}
use argocd_operator.Namespaces.{
  Instance, entries, NamespaceManagement, ended, Cluster, Setup, is_management_enabled,
  allowed_patterns,
}

abbrev pub default_server : String
default_server = "https://kubernetes.default.svc"

-- splitList
unfoldable pub names : String → List String
unfolding split trim_space
names s = map trim_space (split s)

-- `keys[name] = ...`, for a map of which the keys alone are read
unfoldable pub add_name : String → List String → List String
add_name n ns = if contains ns n then ns else n ∷ ns

unfoldable pub add_names : List String → List String → List String
unfolding add_name
add_names [] ns = ns
add_names (m ∷ ms) ns = add_names ms (add_name m ns)

-- allowedNamespace
unfoldable pub is_cluster_config_namespace : Setup → String → Bool
unfolding names
is_cluster_config_namespace u namespace = elim (names u.cluster_config_namespaces) [
  | [] ↦ false
  | n ∷ ns ↦ n == "*" || contains (n ∷ ns) namespace
]

-- combineClusterSecretNamespacesWithManagedNamespaces, on the value of the secret's namespaces
unfoldable pub combine : String → List String → String
unfolding join sort add_names names
combine old managed = join "," (sort (add_names (names old) (add_names managed [])))

-- The loop that leaves a namespace out.
unfoldable pub without_name : String → List String → List String
unfolding trim_space
without_name source [] = []
without_name source (n ∷ ns) =
    let rest = without_name source ns in
    if trim_space n == source then rest else trim_space n ∷ rest

unfoldable pub without_namespace : String → String → String
unfolding join sort without_name split
without_namespace source old = join "," (sort (without_name source (split old)))

-- The last of the secrets whose server is the default one.
unfoldable pub local_secret : List Secret → Option Secret
unfolding lookup
local_secret [] = none
local_secret (x ∷ xs) = elim (local_secret xs) [
  | some y ↦ some y
  | none ↦ if value "server" x.data_map == default_server then some x else none
]

-- The namespaces of the NamespaceManagement resources that target the instance and are allowed.
unfoldable pub targeting : Setup → List String → String → List NamespaceManagement → List String
targeting u patterns namespace [] = []
targeting u patterns namespace (m ∷ ms) =
    let rest = targeting u patterns namespace ms in
    if m.managed_by == namespace && u.matches patterns m.namespace then m.namespace ∷ rest else rest

abbrev pub with_data : Map String String → Secret → Secret
with_data d x = record x { data_map = d }

-- NewSecretWithSuffix, with the label and the data that the caller gives
unfoldable pub new_cluster_secret : Setup → Instance → List String → Secret
unfolding truncate_with_hash truncate_cr_name insert join
new_cluster_secret u cr managed =
    let name =
      truncate_with_hash u.hash (truncate_cr_name u.hash cr.name <> "-" <> "default-cluster-config")
        max_label_length in
    record {
      name = name;
      namespace = cr.namespace;
      labels = insert secret_type_label "cluster" (
          insert "app.kubernetes.io/name" name (
            insert tracked_by_label app_name (
              ("app.kubernetes.io/name", cr.name)
              ∷ ("app.kubernetes.io/part-of", app_name)
              ∷ ("app.kubernetes.io/managed-by", cr.name)
              ∷ [])));
      data_map =
          ("config", u.encoded_config)
          ∷ ("name", "in-cluster")
          ∷ ("server", default_server)
          ∷ ("namespaces", join "," managed)
          ∷ [];
    }

module _ (c : Cluster) (u : Setup) (s : c.State) where
  -- The namespaces that the custom resources add, where the feature is enabled.
  unfoldable pub requested_names : Instance → Listing String
  unfolding targeting allowed_patterns
  requested_names cr =
      if is_management_enabled u
      then elim (c.namespace_managements s) [
        | unlisted e ↦ unlisted e
        | listed ms ↦
            listed
              (targeting u (allowed_patterns (entries cr.namespace_management)) cr.namespace ms)
      ]
      else listed []

  unfoldable pub managed_names : Instance → Listing String
  unfolding requested_names sort add_names
  managed_names cr = elim (c.managed_namespaces s cr.namespace) [
    | unlisted e ↦ unlisted e
    | listed labelled ↦ elim (requested_names cr) [
      | unlisted e ↦ unlisted e
      | listed requested ↦
          listed
            (sort (add_names (cr.namespace ∷ []) (add_names requested (add_names labelled []))))
    ]
  ]

  abbrev updated : Secret → Run c.State
  updated x = let (t, e) = c.update_secret s x in (t, ended e)

  -- The local secret exists.
  unfoldable pub update_local : Instance → List String → Secret → Run c.State
  unfolding is_cluster_config_namespace combine lookup insert erase
  update_local cr managed x =
      let old = value "namespaces" x.data_map in
      let new = combine old managed in
      if is_cluster_config_namespace u cr.namespace
      then elim (lookup "namespaces" x.data_map) [
        | none ↦ (s, done)
        | some _ ↦ updated (with_data (erase "namespaces" x.data_map) x)
      ]
      else (if old == new
          then (s, done)
          else updated (with_data (insert "namespaces" new x.data_map) x))

  -- It does not.
  unfoldable pub create_local : Instance → List String → Run c.State
  unfolding is_cluster_config_namespace new_cluster_secret
  create_local cr managed =
      if is_cluster_config_namespace u cr.namespace
      then (s, done)
      else elim (u.set_controller_reference cr (new_cluster_secret u cr managed)) [
        | inl e ↦ (s, failed e)
        | inr x ↦ let (t, e) = c.create_secret s x in (t, ended e)
      ]

  unfoldable pub reconcile_cluster_permissions_secret : Instance → Run c.State
  unfolding managed_names local_secret update_local create_local
  reconcile_cluster_permissions_secret cr = elim (managed_names cr) [
    | unlisted e ↦ (s, failed e)
    | listed managed ↦ elim (c.cluster_secrets s cr.namespace) [
      | unlisted e ↦ (s, failed e)
      | listed xs ↦ elim (local_secret xs) [
        | none ↦ create_local cr managed
        | some x ↦ update_local cr managed x
      ]
    ]
  ]

  unfoldable pub delete_from_local : String → String → Option Secret → Run c.State
  unfolding without_namespace insert lookup
  delete_from_local owner source none = (s, done)
  delete_from_local owner source (some x) = elim (lookup "namespaces" x.data_map) [
    | none ↦ (s, done)
    | some old ↦
        let new = without_namespace source old in
        let (t, e) = c.update_secret s (with_data (insert "namespaces" new x.data_map) x) in
        if old == new then (s, done) else (
          t,
          elim e [
            | none ↦ done
            | some m ↦ failed (
                "failed to update cluster permission secret for namespace: " <> owner <> " error: "
                <> m)
          ],
        )
  ]

  -- deleteManagedNamespaceFromClusterSecret
  unfoldable pub delete_managed_namespace : String → String → Run c.State
  unfolding local_secret delete_from_local
  delete_managed_namespace owner source = elim (c.cluster_secrets s owner) [
    | unlisted e ↦
        (s, failed ("failed to retrieve secrets for namespace: " <> owner <> " error: " <> e))
    | listed xs ↦ delete_from_local owner source (local_secret xs)
  ]
