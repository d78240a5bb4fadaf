-- ===== src/Workload/Bounds.antt =====
-- The number of replicas of the application controller.
use argocd_operator.Base.{true, false, ◌≡◌, List, ℤ, pos, negsuc, listed, arith}
use argocd_operator.Api.Parts.{ArgoCdApplicationControllerShardSpec}
use argocd_operator.LocalUsers.Cluster.{Secret}
use argocd_operator.Workload.{
  less, to_int32, quotient, at_least, at_most, count, is_set, min_shards, max_shards, replica_count,
}

less_irrefl : (a : ℤ) → less a a ≡ false
less_irrefl (pos n) = ground arith
less_irrefl (negsuc n) = ground arith

less-at_least : (low n : ℤ) → less (at_least low n) low ≡ false
less-at_least low n = ground (arith, less_irrefl low)

less-at_most : (high n : ℤ) → less high (at_most high n) ≡ false
less-at_most high n = ground (arith, less_irrefl high)

less-clamped :
    (low high n : ℤ) → less high low ≡ false → less (at_most high (at_least low n)) low ≡ false
less-clamped low high n h = ground (arith, less-at_least low n)

-- Where scaling is dynamic and the cluster secrets are listed, the number of replicas is at least the
-- least number of shards and at most the greatest, as these are corrected, and the first of them is at
-- least 1, whatever the resource says and however many secrets there are.
pub replica_count-InBounds :
    (s : ArgoCdApplicationControllerShardSpec) (xs : List Secret)
    → is_set s.dynamic_scaling_enabled ≡ true
    → (less (replica_count s (listed xs)) (min_shards s) ≡ false)
      × (less (max_shards s) (replica_count s (listed xs)) ≡ false)
      × (less (min_shards s) (pos 1) ≡ false)
unfolding replica_count
replica_count-InBounds s xs h =
    let wanted = quotient (to_int32 (count xs)) (at_least (pos 1) s.clusters_per_shard) in
    rw (replica_count, h)
      (
        less-clamped (min_shards s) (max_shards s) wanted
            (less-at_least (min_shards s) s.max_shards),
        less-at_most (max_shards s) (at_least (min_shards s) wanted),
        less-at_least (pos 1) s.min_shards,
      )
