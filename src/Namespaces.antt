-- ===== src/Namespaces.antt =====
-- The namespaces that an instance manages: controllers/argocd/namespaceManagement.go, the handlers and
-- clean-ups of controllers/argocd/util.go and the cluster secret of controllers/argocd/secret.go. This
-- file has the resources they read, what they ask of the API server, and the glob match of
-- github.com/argoproj/argo-cd.
pub mod ClusterSecret
pub mod Removed
pub mod Manage
pub mod Handlers
use argocd_operator.Base.{
  ℕ, String, Bool, true, false, ◌==◌, string_eq, ◌≡◌, Option, none, some, List, [], ◌∷◌, Listing,
  listed, Outcome, done, failed, ◌⊎◌, inr, if◌then◌else◌, Reply,
}
use argocd_operator.Base.Map.{Map}
use argocd_operator.Condition.{Condition}
use argocd_operator.Api.Parts.{ManagedNamespaces}
use argocd_operator.LocalUsers.Cluster.{Secret}

-- The fields of an ArgoCD resource that are read; `none` is a nil list.
pub record Instance : Type 0 where
  pub name : String
  pub namespace : String
  pub namespace_management : Option (List ManagedNamespaces)

abbrev pub entries : Option (List ManagedNamespaces) → List ManagedNamespaces
entries none = []
entries (some es) = es

pub record NamespaceManagement : Type 0 where
  pub name : String
  pub namespace : String
  pub managed_by : String
  pub conditions : List Condition

-- A Go error: `none` is nil.
abbrev pub Error : Type 0
Error = Option String

abbrev pub ended : Error → Outcome
ended none = done
ended (some e) = failed e

-- The clock, the answers of the API server, and the next state and the error of each write. A namespace answers
-- with its labels; `managed_namespaces` lists the namespaces whose managed-by label has a value, and
-- the roles and role bindings are those with the operator's part-of label. `stored` are the cluster
-- secrets of a namespace, which the program cannot read but by `cluster_secrets`.
pub record Cluster : Type 1 where
  pub State : Type 0
  pub now : State → ℕ
  pub namespace_names : State → Listing String
  pub managed_namespaces : State → String → Listing String
  pub namespace_labels : State → String → String ⊎ Map String String
  pub update_namespace : State → String → Map String String → State × Error
  pub namespace_managements : State → Listing NamespaceManagement
  pub get_management : State → String → String → Reply NamespaceManagement
  pub update_management : State → NamespaceManagement → State × Error
  pub roles : State → String → Listing String
  pub delete_role : State → String → String → State × Error
  pub role_bindings : State → String → Listing String
  pub delete_role_binding : State → String → String → State × Error
  pub cluster_secrets : State → String → Listing Secret
  pub update_secret : State → Secret → State × Error
  pub create_secret : State → Secret → State × Error
  pub stored : State → String → List Secret

-- The secrets after one of them is updated.
abbrev pub replace : Secret → List Secret → List Secret
replace x [] = []
replace x (y ∷ ys) = (if y.name == x.name then x else y) ∷ replace x ys

abbrev pub InNamespace : String → List Secret → Type 0
InNamespace namespace [] = Unit
InNamespace namespace (x ∷ xs) = (x.namespace ≡ namespace) × InNamespace namespace xs

-- The documented behaviour of the API server, as far as the cluster secrets go: a list that is
-- answered is what is stored in the namespace, and an update or a creation that succeeds takes effect.
pub record IsLawful (c : Cluster) : Type 0 where
  pub secrets-listed :
      (s : c.State) (namespace : String) (xs : List Secret)
      → c.cluster_secrets s namespace ≡ listed xs
      → (c.stored s namespace ≡ xs) × InNamespace namespace xs
  pub secret-updated :
      (s : c.State) (x : Secret)
      → (c.update_secret s x).1 ≡ none
      → c.stored (c.update_secret s x).0 x.namespace ≡ replace x (c.stored s x.namespace)
  pub secret-created :
      (s : c.State) (x : Secret)
      → (c.create_secret s x).1 ≡ none
      → c.stored (c.create_secret s x).0 x.namespace ≡ x ∷ c.stored s x.namespace

-- What the operator is started with and the functions of other repositories that it calls: the
-- environment, the glob match of a name in a list of patterns, the JSON of the cluster configuration,
-- the hash of a long name, and the owner reference.
pub record Setup : Type 0 where
  pub cluster_config_namespaces : String
  pub management_enabled : String
  pub matches : List String → String → Bool
  pub encoded_config : String
  pub hash : String → String
  pub set_controller_reference : Instance → Secret → String ⊎ Secret

-- What is relied on of the owner reference: the secret keeps its namespace and data.
pub record IsSound (u : Setup) : Type 0 where
  pub owned :
      (cr : Instance) (x y : Secret)
      → u.set_controller_reference cr x ≡ inr y
      → (y.namespace ≡ x.namespace) × (y.data_map ≡ x.data_map)

-- isNamespaceManagementEnabled
abbrev pub is_management_enabled : Setup → Bool
is_management_enabled u = u.management_enabled == "true"

-- The patterns that an instance allows to be managed.
unfoldable pub allowed_patterns : List ManagedNamespaces → List String
allowed_patterns [] = []
allowed_patterns (e ∷ es) =
    let rest = allowed_patterns es in if e.allow_managed_by then e.name ∷ rest else rest
