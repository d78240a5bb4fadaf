-- ===== src/Api/Agents.antt =====
-- The structs of the agent and the principal that both versions declare alike.
use argocd_operator.Base.{String, Bool, Option, List}
use argocd_operator.Api.Kube.{Kube}

pub record ArgoCdAgentPrincipalServiceSpec (k : Kube) : Type 0 where
  pub type : k.ServiceType

pub record ArgoCdAgentPrincipalRouteSpec : Type 0 where
  pub enabled : Option Bool

pub record PrincipalServerSpec (k : Kube) : Type 0 where
  pub enable_websocket : Option Bool
  pub keep_alive_min_interval : String
  pub service : ArgoCdAgentPrincipalServiceSpec k
  pub route : ArgoCdAgentPrincipalRouteSpec

pub record PrincipalRedisSpec : Type 0 where
  pub server_address : String
  pub compression_type : String

pub record PrincipalJwtSpec : Type 0 where
  pub insecure_generate : Option Bool
  pub secret_name : String

pub record PrincipalNamespaceSpec : Type 0 where
  pub allowed_namespaces : List String
  pub enable_namespace_create : Option Bool
  pub namespace_create_pattern : String
  pub namespace_create_labels : List String

pub record PrincipalResourceProxySpec : Type 0 where
  pub secret_name : String
  pub ca_secret_name : String

pub record PrincipalTlsSpec : Type 0 where
  pub secret_name : String
  pub root_ca_secret_name : String
  pub insecure_generate : Option Bool

pub record AgentClientSpec : Type 0 where
  pub principal_server_address : String
  pub principal_server_port : String
  pub mode : String
  pub enable_websocket : Option Bool
  pub enable_compression : Option Bool
  pub keep_alive_interval : String

pub record AgentRedisSpec : Type 0 where
  pub server_address : String

pub record AgentTlsSpec : Type 0 where
  pub secret_name : String
  pub root_ca_secret_name : String
  pub insecure : Option Bool
