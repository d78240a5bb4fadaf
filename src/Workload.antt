-- ===== src/Workload.antt =====
-- What the workloads are given: getApplicationControllerReplicaCount of controllers/argocd/statefulset.go,
-- the processors, the log settings and the image of controllers/argocd/util.go, and CombineImageTag of
-- controllers/argoutil/resource.go. An int32 of the resource is an integer.
pub mod Bounds
use argocd_operator.Base.{
  ℕ, zero, suc, ◌-◌, String, ◌<>◌, Bool, true, false, not, ◌&&◌, ◌||◌, ◌==◌, string_eq,
  if◌then◌else◌, Option, none, some, List, [], ◌∷◌, ℤ, pos, negsuc, is_zero, is_positive, Listing,
  listed, unlisted,
}
use Prim.Native.Nat.{◌%◌, ◌/◌}
use argocd_operator.Base.Text.{leb, to_lower, has_part}
use argocd_operator.Api.Parts.{ArgoCdApplicationControllerShardSpec}
use argocd_operator.LocalUsers.Cluster.{Secret}

-- `a < b`
abbrev pub less : ℤ → ℤ → Bool
less (pos a) (pos b) = not (leb b a)
less (pos a) (negsuc b) = false
less (negsuc a) (pos b) = true
less (negsuc a) (negsuc b) = not (leb a b)

-- `int32(n)` of a length
abbrev pub to_int32 : ℕ → ℤ
to_int32 n = let r = n % 4294967296 in if leb 2147483648 r then negsuc (4294967295 - r) else pos r

-- `a / b`, which Go rounds towards zero; the divisor here is at least 1.
abbrev pub negated : ℕ → ℤ
negated zero = pos 0
negated (suc n) = negsuc n

abbrev pub quotient : ℤ → ℤ → ℤ
quotient (pos a) (pos b) = pos (a / b)
quotient (negsuc a) (pos b) = negated (suc a / b)
quotient (pos a) (negsuc b) = negated (a / suc b)
quotient (negsuc a) (negsuc b) = pos (suc a / suc b)

abbrev pub at_least : ℤ → ℤ → ℤ
at_least low n = if less n low then low else n

abbrev pub at_most : ℤ → ℤ → ℤ
at_most high n = if less high n then high else n

abbrev pub count : List Secret → ℕ
count [] = 0
count (_ ∷ xs) = suc (count xs)

abbrev pub is_set : Option Bool → Bool
is_set none = false
is_set (some b) = b

-- The bounds that are used where scaling is dynamic.
abbrev pub min_shards : ArgoCdApplicationControllerShardSpec → ℤ
min_shards s = at_least (pos 1) s.min_shards

abbrev pub max_shards : ArgoCdApplicationControllerShardSpec → ℤ
max_shards s = at_least (min_shards s) s.max_shards

-- `secrets` is the answer of getClusterSecrets.
unfoldable pub replica_count : ArgoCdApplicationControllerShardSpec → Listing Secret → ℤ
replica_count s secrets =
    if is_set s.dynamic_scaling_enabled
    then elim secrets [
      | unlisted e ↦ pos 1
      | listed xs ↦ at_most (max_shards s) (
          at_least (min_shards s)
            (quotient (to_int32 (count xs)) (at_least (pos 1) s.clusters_per_shard)))
    ]
    else (if not (is_zero s.replicas) && s.enabled then s.replicas else pos 1)

-- getArgoServerOperationProcessors, getArgoServerStatusProcessors and
-- getArgoControllerParallelismLimit: the default where the resource has no positive number.
abbrev pub positive_or : ℤ → ℤ → ℤ
positive_or default n = if is_positive n then n else default

abbrev pub operation_processors : ℤ → ℤ
operation_processors = positive_or (pos 10)

abbrev pub status_processors : ℤ → ℤ
status_processors = positive_or (pos 20)

abbrev pub parallelism_limit : ℤ → ℤ
parallelism_limit = positive_or (pos 10)

unfoldable pub log_level : String → String
unfolding to_lower
log_level field =
    let l = to_lower field in
    if l == "debug" || l == "info" || l == "warn" || l == "error" then field else "info"

unfoldable pub log_format : String → String
unfolding to_lower
log_format field = let l = to_lower field in if l == "text" || l == "json" then field else "text"

-- getPriorityValue
abbrev pub priority_value : String → String → String → String
priority_value container common fallback =
    if not (container == "") then container else (if not (common == "") then common else fallback)

abbrev pub default_image : String
default_image = "quay.io/argoproj/argocd"

abbrev pub default_version : String
default_version = "sha256:c612d570cb6d6ff29afb72932c1bfe98a1ecc234df50f8ea4873fb7066e760fc"

-- GetImageAndTag. `base` is extractBaseImageName, whose parser is another repository's; `env` is the
-- value of the environment variable.
unfoldable pub image_and_tag :
    (String → Option String) → String → String → String → String → String → String × String
image_and_tag base env container_image container_version common_image common_version =
    let image : Option String = if env == "" then some default_image else elim (base env) [
      | none ↦ none
      | some name ↦ some (if name == "" then default_image else name)
    ] in
    if not (env == "")
      && container_image == ""
      && common_image == ""
      && container_version == ""
      && common_version == ""
    then (env, "")
    else elim image [
      | none ↦ ("", "")
      | some i ↦ (
        priority_value container_image common_image i,
        priority_value container_version common_version default_version,
      )
    ]

unfoldable pub combine_image_tag : String → String → String
unfolding has_part
combine_image_tag image tag =
    if has_part tag ":"
    then image <> "@" <> tag
    else (if not (tag == "") then image <> ":" <> tag else image)
