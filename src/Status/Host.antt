-- ===== src/Status/Host.antt =====
-- reconcileStatusHost: the host of the Argo CD server, from its route or its ingress.
use argocd_operator.Base.{
  String, ◌&&◌, ◌||◌, ◌==◌, string_eq, if◌then◌else◌, Option, none, some, List, [], ◌∷◌, found,
  absent, refused, listed, unlisted, Run, done, failed, panicked,
}
use argocd_operator.Base.Commas.{join}
use argocd_operator.Spec.{ArgoCd}
use argocd_operator.Status.{ArgoCdStatus, Route, RouteIngress, LoadBalancerIngress, Snapshot}

-- The first condition of an ingress, if it says whether the route is admitted.
abbrev admitted : List (String × String) → Option String
admitted [] = none
admitted ((type, status) ∷ _) = if type == "Admitted" then some status else none

unfoldable pub ingress_host : RouteIngress → ArgoCdStatus → ArgoCdStatus
ingress_host i s = elim (admitted i.conditions) [
  | some status ↦
      if status == "True"
      then record s { host = i.host }
      else record s { host = ""; phase = "Pending" }
  | none ↦
      if i.host == ""
      then record s { host = "Unavailable"; phase = "Pending" }
      else record s { host = i.host }
]

-- `Ingress[0]` panics where the slice is empty but not nil.
unfoldable pub route_host : Route → ArgoCdStatus → Run ArgoCdStatus
unfolding ingress_host
route_host r s = elim r.ingress [
  | none ↦ (record s { host = ""; phase = "Pending" }, done)
  | some [] ↦ (s, panicked)
  | some (i ∷ _) ↦ (ingress_host i s, done)
]

-- The loop that collects host names, or addresses where there is no name.
unfoldable pub addresses : List LoadBalancerIngress → List String
addresses [] = []
addresses (i ∷ is) =
    let rest = addresses is in
    if i.hostname == "" then (if i.ip == "" then rest else i.ip ∷ rest) else i.hostname ∷ rest

module _ (snapshot : Snapshot) (cr : ArgoCd) where
  from_route : ArgoCdStatus → Run ArgoCdStatus
  unfolding route_host
  from_route s = elim snapshot.server_routes [
    | unlisted e ↦ (record s { phase = "Failed" }, failed e)
    | listed [] ↦ (s, done)
    | listed (r ∷ _) ↦ route_host r s
  ]

  from_ingress : ArgoCdStatus → Run ArgoCdStatus
  unfolding addresses
  from_ingress s = elim snapshot.server_ingress [
    | refused e ↦ (record s { phase = "Failed" }, failed e)
    | absent ↦ (record s { phase = "Pending" }, done)
    | found [] ↦ (s, done)
    | found (i ∷ is) ↦ (record s { host = join ", " (addresses (i ∷ is)) }, done)
  ]

  unfoldable pub reconcile_host : ArgoCdStatus → Run ArgoCdStatus
  unfolding from_route from_ingress
  reconcile_host status =
      let s = record status { host = "" } in
      if (cr.server_route_enabled || cr.server_ingress_enabled) && snapshot.route_api_available
      then from_route s
      else (if cr.server_ingress_enabled then from_ingress s else (s, done))
