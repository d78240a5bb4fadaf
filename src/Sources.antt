-- ===== src/Sources.antt =====
-- The source namespaces of an instance's applications: setManagedSourceNamespaces, getSourceNamespaces,
-- ensureSourceNamespacesAllowed and the clean-ups of controllers/argocd/util.go. Of
-- r.ManagedSourceNamespaces the keys are kept, in some order. Sources.Restore has the tracking labels.
pub mod ApplicationSets
pub mod Restore
pub mod Laws
use argocd_operator.Base.{
  String, ◌<>◌, Bool, true, false, not, ◌&&◌, ◌||◌, ◌==◌, contains, string_eq, if◌then◌else◌,
  Option, none, some, List, [], ◌∷◌, Reply, found, absent, refused, Listing, listed, unlisted, Run,
  done, failed, panicked, Outcome, ◌then_do◌,
}
use argocd_operator.Base.Map.{Map, lookup, insert, erase}
use argocd_operator.Names.{truncate_with_hash, max_label_length}
use argocd_operator.Namespaces.{Error, ended}
use argocd_operator.Mappers.{application_set_label}

abbrev pub managed_by_cluster_label : String
managed_by_cluster_label = "argocd.argoproj.io/managed-by-cluster-argocd"

-- The fields of an ArgoCD resource that are read.
pub record Instance : Type 0 where
  pub name : String
  pub namespace : String
  pub is_deleted : Bool
  pub source_namespaces : List String

-- rbacv1.PolicyRule and rbacv1.Role, as far as they are read.
pub record Rule : Type 0 where
  pub api_groups : List String
  pub resources : List String

pub record Role : Type 0 where
  pub name : String
  pub namespace : String
  pub rules : List Rule

-- The answers of the API server, with the namespaces by name and labels, and the next state and the
-- error of each write; `matches` is the regular-expression match of github.com/argoproj/argo-cd, `hash`
-- the hash of a long name, `joined` the text of errors.Join, and `is_allowed` whether the namespace is
-- one of ARGOCD_CLUSTER_CONFIG_NAMESPACES.
pub record Server : Type 1 where
  pub State : Type 0
  pub namespace_names : State → Listing String
  pub labelled_namespaces : State → String → String → Listing String
  pub get_namespace : State → String → Reply (Map String String)
  pub update_namespace : State → String → Map String String → State × Error
  pub roles_of : State → String → Listing Role
  pub get_role : State → String → String → Reply (Unit {0})
  pub delete_role : State → String → String → State × Error
  pub get_role_binding : State → String → String → Reply (Unit {0})
  pub delete_role_binding : State → String → String → State × Error
  pub matches : List String → String → Bool
  pub hash : String → String
  pub joined : Error → String → Error
  pub is_allowed : String → Bool

-- getRoleNameForApplicationSourceNamespaces
abbrev pub role_name : String → Instance → String
role_name target cr = cr.name <> "_" <> target

-- getRoleBindingNameForSourceNamespaces
unfoldable pub role_binding_name : (String → String) → String → String → String
unfolding truncate_with_hash
role_binding_name hash name target =
    truncate_with_hash hash (name <> "_" <> target) max_label_length

-- getResourceNameForApplicationSetSourceNamespaces
abbrev pub application_set_name : Instance → String
application_set_name cr = cr.name <> "-" <> cr.namespace <> "-applicationset"

module _ (c : Server) where
  abbrev pub keys : List String → List String → List String
  keys [] ns = ns
  keys (m ∷ ms) ns = keys ms (if contains ns m then ns else m ∷ ns)

  -- setManagedSourceNamespaces: the map is emptied first.
  unfoldable pub set_managed_sources : Instance → c.State → List String × Outcome
  set_managed_sources cr s = elim (c.labelled_namespaces s managed_by_cluster_label cr.namespace) [
    | unlisted e ↦ ([], failed e)
    | listed ns ↦ (keys ns [], done)
  ]

  -- The two parts of cleanupUnmanagedSourceNamespaceResources that follow the label.
  unfoldable pub delete_source_role : Instance → String → c.State → Run c.State
  delete_source_role cr n s =
      let (t, e) = c.delete_role s n (role_name n cr) in
      elim (c.get_role s n (role_name n cr)) [
        | refused m ↦ (
          s,
          failed
              ("failed to fetch the role for the service account associated with server : " <> m),
        )
        | absent ↦ (s, done)
        | found _ ↦ (t, ended e)
      ]

  unfoldable pub delete_source_role_binding : Instance → String → c.State → Run c.State
  unfolding role_binding_name
  delete_source_role_binding cr n s =
      let name = role_binding_name c.hash cr.name n in
      let (t, e) = c.delete_role_binding s n name in
      elim (c.get_role_binding s n name) [
        | refused m ↦ (s, failed ("failed to get the rolebinding associated with server : " <> m))
        | absent ↦ (s, done)
        | found _ ↦ (t, ended e)
      ]

  -- cleanupUnmanagedSourceNamespaceResources: an error of the label's removal is only logged.
  unfoldable pub cleanup_source : Instance → String → c.State → Run c.State
  unfolding delete_source_role delete_source_role_binding erase ◌then_do◌
  cleanup_source cr n s = elim (c.get_namespace s n) [
    | absent ↦ (s, done)
    | refused e ↦ (s, failed e)
    | found labels ↦
        let unlabelled = (c.update_namespace s n (erase managed_by_cluster_label labels)).0 in
        delete_source_role cr n unlabelled then_do delete_source_role_binding cr n
  ]

  unfoldable pub without : String → List String → List String
  without n [] = []
  without n (m ∷ ms) = let rest = without n ms in if m == n then rest else m ∷ rest

  -- A namespace is taken off the map if its clean-up meets no error.
  unfoldable pub cleanup_and_forget :
      Instance → String → c.State × List String → c.State × List String
  unfolding cleanup_source without
  cleanup_and_forget cr n (s, managed) =
      let (t, o) = cleanup_source cr n s in
      (t, elim o [ done ↦ without n managed | failed e ↦ managed | panicked ↦ managed ])

  -- cleanupAllSourceNamespaces, over the keys of the map
  unfoldable pub cleanup_all :
      Instance → List String → c.State × List String → c.State × List String
  unfolding cleanup_and_forget
  cleanup_all cr [] t = t
  cleanup_all cr (n ∷ ns) t = cleanup_all cr ns (cleanup_and_forget cr n t)

  -- ensureSourceNamespacesAllowed
  unfoldable pub ensure_allowed : Instance → c.State × List String → c.State × List String
  unfolding cleanup_all
  ensure_allowed cr (s, managed) =
      if c.is_allowed cr.namespace then (s, managed) else cleanup_all cr managed (s, managed)

  abbrev pub matching : List String → List String → List String
  matching patterns [] = []
  matching patterns (n ∷ ns) =
      let rest = matching patterns ns in if c.matches patterns n then n ∷ rest else rest

  -- getSourceNamespaces
  unfoldable pub source_namespaces :
      Instance → c.State × List String → (c.State × List String) × Listing String
  unfolding ensure_allowed
  source_namespaces cr t =
      let (s, managed) = ensure_allowed cr t in
      (
        (s, managed),
        elim (c.namespace_names s) [
          | unlisted e ↦ unlisted e
          | listed ns ↦ listed (matching cr.source_namespaces ns)
        ],
      )

  -- The loop of removeUnmanagedSourceNamespaceResources over the keys of the map. A key that was deleted
  -- before the loop reaches it is not visited.
  unfoldable pub remove_unmanaged :
      Instance → List String → c.State × List String → Run (c.State × List String)
  unfolding source_namespaces cleanup_and_forget
  remove_unmanaged cr [] t = (t, done)
  remove_unmanaged cr (n ∷ ns) (s, managed) =
      let skipped = remove_unmanaged cr ns (s, managed) in
      let cleaned = remove_unmanaged cr ns (cleanup_and_forget cr n (s, managed)) in
      let (t, sources) = source_namespaces cr (s, managed) in
      let kept = remove_unmanaged cr ns t in
      let dropped = remove_unmanaged cr ns (cleanup_and_forget cr n t) in
      if not (contains managed n)
      then skipped
      else (if cr.is_deleted then cleaned else elim sources [
        | unlisted e ↦ (t, failed e)
        | listed ms ↦ if contains ms n then kept else dropped
      ])
