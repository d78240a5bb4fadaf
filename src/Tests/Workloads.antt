-- ===== src/Tests/Workloads.antt =====
-- Names, objects read through the cache, deployments, replicas and mapped events.
use argocd_operator.Base.{
  ℕ, ◌≤◌, String, ◌<>◌, ◌≡◌, refl, true, false, contains, string_eq, pair_eq, ℕ_eq, pair_eq, none,
  some, List, [], ◌∷◌, Reply, found, listed, pos, negsuc, arith,
}
use argocd_operator.Base.Text.{has_suffix}
use argocd_operator.Base.Map.{lookup}
use Prim.Native.String.{len}
use argocd_operator.Names.{name_with_suffix, name_with_suffix_for_stateful_set}
use argocd_operator.Names.Bounds.{name_with_suffix-InBounds}
use argocd_operator.ClientWrapper
use argocd_operator.ClientWrapper.{Meta, LiveClient, tracked_by_label, strip, is_tracked, get}
use argocd_operator.ClientWrapper.Laws.{map_reply, unlabelled, IsLawful, get-live}
use argocd_operator.Deployments.{
  Kinds, Container, Deployment, update_node_placement, update_image, update_container, update_size,
  update_limits, update_pod, update_labels, update_fields, update_existing,
}
use argocd_operator.Deployments.Place.{target}
use argocd_operator.Deployments.Laws.{update_existing-target}
use argocd_operator.Api.Parts.{ArgoCdApplicationControllerShardSpec}
use argocd_operator.Workload.{less, min_shards, max_shards, replica_count}
use argocd_operator.Workload.Bounds.{replica_count-InBounds}
use argocd_operator.Mappers
use argocd_operator.Mappers.{
  Request, Instance, request_of, application_set_label, namespace_resource_mapper,
}
use argocd_operator.Mappers.Laws.{in_namespace, contains-namespace_resource_mapper}
use argocd_operator.Namespaces.Manage.{managed_by_label}

abbrev digits : String → String
digits s = "0123456"

abbrev long_name : String
long_name = "an-instance-with-a-name-that-is-longer-than-the-limit"

abbrev suffix : String
suffix = "redis-initial-password"

name_with_suffix-InBounds_example :
    (len (name_with_suffix digits long_name suffix) ≤ 63)
    × (len (name_with_suffix_for_stateful_set digits long_name suffix) ≤ 52)
    × (len suffix ≤ 25
        → has_suffix (name_with_suffix digits long_name suffix) ("-" <> suffix) ≡ true)
name_with_suffix-InBounds_example = name_with_suffix-InBounds digits (λ s. refl) long_name suffix

-- A server that holds one Secret without the label, and answers a patch with what it is sent.
abbrev plain : ClientWrapper.Object (Unit {0})
plain =
    ClientWrapper.secret (record { labels = []; rest = tt }) (some (("password", "x") ∷ [])) none

abbrev server : LiveClient (Unit {0})
server = record {
  State = Unit;
  get = λ s namespace name. found plain;
  patch = λ s o labelled. (s, found labelled);
}

server-IsLawful : IsLawful server
server-IsLawful = record { patched = λ s o labelled p h. ground arith }

abbrev from_cache : String → String → Reply (ClientWrapper.Object (Unit {0}))
from_cache namespace name =
    found (ClientWrapper.secret (record { labels = []; rest = tt }) none none)

get-live_example :
    map_reply unlabelled (get server from_cache tt "ns" "other").1
    ≡ map_reply unlabelled (server.get tt "ns" "other")
unfolding strip is_tracked lookup
get-live_example =
    get-live server server-IsLawful from_cache tt (λ namespace name. refl) "ns" "other"

abbrev kinds : Kinds
kinds = record {
  Value = ℕ;
  value_eq = ℕ_eq;
  Labels = ℕ;
  labels_eq = ℕ_eq;
  set_label = λ key v labels. some 9;
}

abbrev container : String → ℕ → Container kinds
container image n = record {
  image = image;
  image_pull_policy = "Always";
  command = n;
  args = n;
  env = n;
  volume_mounts = n;
  resources = n;
  security_context = n;
  rest = n;
}

abbrev deployment : ℕ → List (Container kinds) → Deployment kinds
deployment n cs = record {
  name = "server";
  labels = n;
  selector = n;
  replicas = n;
  pod_labels = n;
  node_selector = n;
  tolerations = n;
  volumes = n;
  security_context = n;
  service_account_name = "server";
  containers = cs;
  rest = n;
}

abbrev old : Deployment kinds
old = deployment 1 (container "a" 1 ∷ container "sidecar" 5 ∷ [])

abbrev wanted : Deployment kinds
wanted = deployment 2 (container "b" 2 ∷ [])

abbrev result : Deployment kinds
result = record (target wanted (container "b" 2) old (container "a" 1)).0 {
  containers =
      (target wanted (container "b" 2) old (container "a" 1)).1 ∷ container "sidecar" 5 ∷ [];
}

abbrev all_changes : List String
all_changes =
    "node selector" ∷ "tolerations" ∷ "container image" ∷ "container command" ∷ "container env"
    ∷ "volumes" ∷ "replicas" ∷ "container volume mounts" ∷ "container resources"
    ∷ "container security context" ∷ "pod security context" ∷ "container args" ∷ "labels"
    ∷ "pod labels" ∷ "selector" ∷ []

old-updated : update_existing kinds "now" wanted old ≡ some (result, all_changes)
unfolding update_existing update_fields update_node_placement update_image update_container
    update_size update_limits update_pod update_labels string_eq ℕ_eq
old-updated = refl

update_existing-target_example :
    (result ≡ record (target wanted (container "b" 2) old (container "a" 1)).0 {
      containers =
          (target wanted (container "b" 2) old (container "a" 1)).1 ∷ container "sidecar" 5 ∷ [];
    })
    × (update_existing kinds "later" wanted result ≡ some (result, []))
update_existing-target_example =
    update_existing-target kinds "now" "later" wanted old result (container "b" 2) (container "a" 1)
      [] (container "sidecar" 5 ∷ []) all_changes refl refl old-updated

abbrev shards : ArgoCdApplicationControllerShardSpec
shards = record {
  enabled = false;
  replicas = pos 0;
  dynamic_scaling_enabled = some true;
  min_shards = negsuc 4;
  max_shards = pos 3;
  clusters_per_shard = pos 0;
  distribution_algorithm = "";
}

replica_count-InBounds_example :
    (less (replica_count shards (listed [])) (min_shards shards) ≡ false)
    × (less (max_shards shards) (replica_count shards (listed [])) ≡ false)
    × (less (min_shards shards) (pos 1) ≡ false)
replica_count-InBounds_example = replica_count-InBounds shards [] refl

abbrev instance_a : Instance
instance_a = record {
  name = "argocd";
  namespace = "ns";
  server_certificate = none;
  prometheus_certificate = none;
  webhook_certificate = none;
  source_namespaces = "shop" ∷ [];
}

abbrev namespace_object : Mappers.Object
namespace_object = record {
  name = "shop";
  namespace = "";
  labels = (managed_by_label, "ns") ∷ [];
  annotations = [];
  owners = [];
  is_secret = false;
}

contains-namespace_resource_mapper_example :
    contains
      (namespace_resource_mapper
        (λ ns n. contains ns n)
        (λ v. listed (in_namespace v (instance_a ∷ [])))
        (listed (instance_a ∷ []))
        namespace_object)
      (request_of instance_a)
    ≡ true
unfolding string_eq lookup pair_eq
contains-namespace_resource_mapper_example =
    contains-namespace_resource_mapper (λ ns n. contains ns n)
      (λ v. listed (in_namespace v (instance_a ∷ []))) (instance_a ∷ []) namespace_object
      (request_of instance_a) (λ v. refl)
