-- ===== src/Status.antt =====
-- controllers/argocd/status.go and reconcileStatusRepo of controllers/argocd/repo_server.go. The
-- state is `argocdStatus` with `cr.Status.Conditions`, which the single sign-on status edits. The
-- API server's answers are a snapshot: a deployment or a stateful set is looked up by the suffix that
-- newDeploymentWithSuffix or newStatefulSetWithSuffix is given.
pub mod Components
pub mod Host
pub mod Phase
pub mod Bounds
use argocd_operator.Base.{ℕ, String, Bool, Option, List, Reply, Listing}

-- appsv1.Deployment, as far as it is read: the replicas wanted and ready, and the conditions with
-- their types and statuses.
pub record Deployment : Type 0 where
  pub replicas : Option ℕ
  pub ready_replicas : ℕ
  pub conditions : List (String × String)

pub record StatefulSet : Type 0 where
  pub replicas : Option ℕ
  pub ready_replicas : ℕ

-- routev1.RouteIngress: its host and its conditions.
pub record RouteIngress : Type 0 where
  pub host : String
  pub conditions : List (String × String)

-- The `status.ingress` of a route; `none` is nil.
pub record Route : Type 0 where
  pub ingress : Option (List RouteIngress)

-- An element of the load balancer's status.
pub record LoadBalancerIngress : Type 0 where
  pub hostname : String
  pub ip : String

pub record Snapshot : Type 0 where
  pub deployment : String → Reply Deployment
  pub stateful_set : String → Reply StatefulSet
  pub server_routes : Listing Route
  pub server_ingress : Reply (List LoadBalancerIngress)
  pub route_api_available : Bool

-- ArgoCDStatus without the two checksums and the conditions, which these functions leave alone.
pub record ArgoCdStatus : Type 0 where
  pub application_controller : String
  pub application_set_controller : String
  pub sso : String
  pub notifications_controller : String
  pub phase : String
  pub redis : String
  pub repo : String
  pub server : String
  pub host : String
