-- ===== src/Mappers.antt =====
-- The watch mappers of controllers/argocd/custommapper.go, which give the instances to reconcile for an
-- event on another object. The API server's answers are arguments; `matches` is the glob match of
-- github.com/argoproj/argo-cd. A request is a namespace and a name.
pub mod Laws
use argocd_operator.Base.{
  String, Bool, true, false, not, ◌&&◌, ◌||◌, ◌==◌, string_eq, if◌then◌else◌, Option, none, some,
  List, [], ◌∷◌, Reply, found, absent, refused, Listing, listed, unlisted,
}
use argocd_operator.Base.Map.{Map, lookup}
use argocd_operator.Base.Text.{has_suffix}
use argocd_operator.LocalUsers.Cluster.{value}
use argocd_operator.Namespaces.Manage.{managed_by_label}
use argocd_operator.ClientWrapper.{secret_type_label}

abbrev pub Request : Type 0
Request = String × String

-- An owner reference, with its kind and name.
pub record Owner : Type 0 where
  pub kind : String
  pub name : String

pub record Object : Type 0 where
  pub name : String
  pub namespace : String
  pub labels : Map String String
  pub annotations : Map String String
  pub owners : List Owner
  pub is_secret : Bool

-- An ArgoCD resource: the secrets of the routes of its server, Prometheus and application sets that use
-- an external certificate, and its source namespaces.
pub record Instance : Type 0 where
  pub name : String
  pub namespace : String
  pub server_certificate : Option String
  pub prometheus_certificate : Option String
  pub webhook_certificate : Option String
  pub source_namespaces : List String

abbrev pub request_of : Instance → Request
request_of i = (i.namespace, i.name)

-- `argocds.Items[0]`, where there is exactly one
abbrev pub only : Listing Instance → List Request
only (unlisted e) = []
only (listed []) = []
only (listed (i ∷ [])) = request_of i ∷ []
only (listed (i ∷ j ∷ is)) = []

abbrev pub all_requests : List Instance → List Request
all_requests [] = []
all_requests (i ∷ is) = request_of i ∷ all_requests is

abbrev pub name_annotation : String
name_annotation = "argocds.argoproj.io/name"

abbrev pub namespace_annotation : String
namespace_annotation = "argocds.argoproj.io/namespace"

unfoldable pub cluster_resource_mapper : Object → List Request
unfolding lookup
cluster_resource_mapper o =
    let name = value name_annotation o.annotations in
    let namespace = value namespace_annotation o.annotations in
    if name == "" || namespace == "" then [] else (namespace, name) ∷ []

-- isSecretOfInterest
unfoldable pub is_secret_of_interest : Object → Bool
unfolding has_suffix
is_secret_of_interest o =
    has_suffix o.name "-repo-server-tls" || o.name == "argocd-operator-redis-tls"

-- isOwnerOfInterest
unfoldable pub is_owner_of_interest : Owner → Bool
unfolding has_suffix
is_owner_of_interest w =
    w.kind == "Service" && (has_suffix w.name "-repo-server" || has_suffix w.name "-redis")

abbrev pub is_certificate : String → Option String → Bool
is_certificate name none = false
is_certificate name (some c) = c == name

-- isUserManagedSecret: the instance, if it is alone in the namespace and refers to the secret.
unfoldable pub user_managed : Object → Listing Instance → Option Request
user_managed o (unlisted e) = none
user_managed o (listed []) = none
user_managed o (listed (i ∷ [])) =
    if is_certificate o.name i.server_certificate
      || is_certificate o.name i.prometheus_certificate
      || is_certificate o.name i.webhook_certificate
    then some (request_of i)
    else none
user_managed o (listed (i ∷ j ∷ is)) = none

-- The first owner of a service that is an ArgoCD.
abbrev pub argocd_owner : String → List Owner → List Request
argocd_owner namespace [] = []
argocd_owner namespace (w ∷ ws) =
    if w.kind == "ArgoCD" then (namespace, w.name) ∷ [] else argocd_owner namespace ws

-- The loop over the owners of the secret; `service` reads the owners of a service of the namespace. A
-- service that cannot be read ends it.
unfoldable pub owner_requests : (String → Reply (List Owner)) → String → List Owner → List Request
unfolding is_owner_of_interest
owner_requests service namespace [] = []
owner_requests service namespace (w ∷ ws) =
    let rest = owner_requests service namespace ws in
    if is_owner_of_interest w
    then elim (service w.name) [
      | found owners ↦ elim (argocd_owner namespace owners) [ [] ↦ rest | r ∷ _ ↦ r ∷ [] ]
      | absent ↦ []
      | refused e ↦ []
    ]
    else rest

abbrev annotated : Object → List Request
annotated o =
    if o.is_secret
    then elim (lookup name_annotation o.annotations) [
      | none ↦ []
      | some name ↦ (o.namespace, name) ∷ []
    ]
    else []

unfoldable pub tls_secret_mapper :
    (String → Reply (List Owner)) → Listing Instance → Object → List Request
unfolding user_managed is_secret_of_interest owner_requests lookup
tls_secret_mapper service instances o = elim (user_managed o instances) [
  | some r ↦ r ∷ []
  | none ↦
      if is_secret_of_interest o
      then elim o.owners [ [] ↦ annotated o | w ∷ ws ↦ owner_requests service o.namespace (w ∷ ws) ]
      else []
]

abbrev pub application_set_label : String
application_set_label = "argocd.argoproj.io/applicationset-managed-by-cluster-argocd"

unfoldable pub sourcing : (List String → String → Bool) → String → List Instance → List Request
sourcing matches namespace [] = []
sourcing matches namespace (i ∷ is) =
    let rest = sourcing matches namespace is in
    if matches i.source_namespaces namespace then request_of i ∷ rest else rest

abbrev of_listing : (List Instance → List Request) → Listing Instance → List Request
of_listing f (unlisted e) = []
of_listing f (listed is) = f is

-- `instances_in` lists the instances of a namespace, and `instances` all of them.
unfoldable pub namespace_resource_mapper :
    (List String → String → Bool)
    → (String → Listing Instance)
    → Listing Instance
    → Object
    → List Request
unfolding lookup sourcing
namespace_resource_mapper matches instances_in instances o =
    elim (lookup managed_by_label o.labels) [
      | some v ↦ only (instances_in v)
      | none ↦ elim (lookup application_set_label o.labels) [
        | some v ↦ of_listing all_requests (instances_in v)
        | none ↦ of_listing (sourcing matches o.name) instances
      ]
    ]

unfoldable pub cluster_secret_mapper : Listing Instance → Object → List Request
unfolding lookup
cluster_secret_mapper instances o = elim (lookup secret_type_label o.labels) [
  | none ↦ []
  | some v ↦ if v == "cluster" then only instances else []
]

unfoldable pub scm_config_map_mapper : Listing Instance → Object → List Request
scm_config_map_mapper instances o =
    if o.name == "argocd-appset-gitlab-scm-tls-certs-cm" then only instances else []

unfoldable pub management_mapper : Listing Instance → List Request
management_mapper (unlisted e) = []
management_mapper (listed is) = all_requests is
