-- ===== src/Api/ToBetaAgents.antt =====
-- The conversions of the agent and the principal from v1alpha1 to v1beta1, in
-- api/v1alpha1/argocd_conversion.go.
use argocd_operator.Api.ToBetaParts.{convert_metrics}
use argocd_operator.Api.Alpha
use argocd_operator.Api.Beta
use argocd_operator.Api.Kube.{on_pointer}
use argocd_operator.Base.{none, []}
use argocd_operator.Api.Kube.{Kube}
use argocd_operator.Api.Agents.{
  PrincipalServerSpec, PrincipalRedisSpec, PrincipalJwtSpec, PrincipalNamespaceSpec,
  PrincipalResourceProxySpec, PrincipalTlsSpec, AgentClientSpec, AgentRedisSpec, AgentTlsSpec,
}

unfoldable pub convert_principal_server : (k : Kube) → PrincipalServerSpec k → PrincipalServerSpec k
convert_principal_server k s = record {
  enable_websocket = s.enable_websocket;
  keep_alive_min_interval = s.keep_alive_min_interval;
  service = s.service;
  route = s.route;
}

unfoldable pub convert_principal_redis : PrincipalRedisSpec → PrincipalRedisSpec
convert_principal_redis s = record {
  server_address = s.server_address;
  compression_type = s.compression_type;
}

unfoldable pub convert_principal_namespace : PrincipalNamespaceSpec → PrincipalNamespaceSpec
convert_principal_namespace s = record {
  allowed_namespaces = s.allowed_namespaces;
  enable_namespace_create = s.enable_namespace_create;
  namespace_create_pattern = s.namespace_create_pattern;
  namespace_create_labels = s.namespace_create_labels;
}

unfoldable pub convert_principal_tls : PrincipalTlsSpec → PrincipalTlsSpec
convert_principal_tls s = record {
  secret_name = s.secret_name;
  root_ca_secret_name = s.root_ca_secret_name;
  insecure_generate = s.insecure_generate;
}

unfoldable pub convert_principal_resource_proxy :
    PrincipalResourceProxySpec → PrincipalResourceProxySpec
convert_principal_resource_proxy s = record {
  secret_name = s.secret_name;
  ca_secret_name = s.ca_secret_name;
}

unfoldable pub convert_principal_jwt : PrincipalJwtSpec → PrincipalJwtSpec
convert_principal_jwt s = record {
  insecure_generate = s.insecure_generate;
  secret_name = s.secret_name;
}

unfoldable pub convert_principal : (k : Kube) → Alpha.PrincipalSpec k → Beta.PrincipalSpec k
unfolding convert_metrics convert_principal_jwt convert_principal_namespace convert_principal_redis
    convert_principal_resource_proxy convert_principal_server convert_principal_tls
convert_principal k s = record {
  enabled = s.enabled;
  auth = s.auth;
  log_level = s.log_level;
  log_format = s.log_format;
  image = s.image;
  env = s.env;
  server = on_pointer (convert_principal_server k) s.server;
  namespace = on_pointer convert_principal_namespace s.namespace;
  resources = none;
  resource_proxy = on_pointer convert_principal_resource_proxy s.resource_proxy;
  redis = on_pointer convert_principal_redis s.redis;
  tls = on_pointer convert_principal_tls s.tls;
  jwt = on_pointer convert_principal_jwt s.jwt;
  destination_based_mapping = none;
  label_selector = s.label_selector;
  metrics = on_pointer convert_metrics s.metrics;
}

unfoldable pub convert_agent_client : AgentClientSpec → AgentClientSpec
convert_agent_client s = record {
  principal_server_address = s.principal_server_address;
  principal_server_port = s.principal_server_port;
  mode = s.mode;
  enable_websocket = s.enable_websocket;
  enable_compression = s.enable_compression;
  keep_alive_interval = s.keep_alive_interval;
}

unfoldable pub convert_agent_redis : AgentRedisSpec → AgentRedisSpec
convert_agent_redis s = record { server_address = s.server_address }

unfoldable pub convert_agent_tls : AgentTlsSpec → AgentTlsSpec
convert_agent_tls s = record {
  secret_name = s.secret_name;
  root_ca_secret_name = s.root_ca_secret_name;
  insecure = s.insecure;
}

unfoldable pub convert_agent : (k : Kube) → Alpha.AgentSpec k → Beta.AgentSpec k
unfolding convert_agent_client convert_agent_redis convert_agent_tls convert_metrics
convert_agent k s = record {
  enabled = s.enabled;
  allowed_namespaces = [];
  creds = s.creds;
  log_level = s.log_level;
  log_format = s.log_format;
  image = s.image;
  env = s.env;
  client = on_pointer convert_agent_client s.client;
  redis = on_pointer convert_agent_redis s.redis;
  resources = none;
  tls = on_pointer convert_agent_tls s.tls;
  destination_based_mapping = none;
  label_selector = s.label_selector;
  metrics = on_pointer convert_metrics s.metrics;
}

unfoldable pub convert_argo_cd_agent : (k : Kube) → Alpha.ArgoCdAgentSpec k → Beta.ArgoCdAgentSpec k
unfolding convert_agent convert_principal
convert_argo_cd_agent k s = record {
  principal = on_pointer (convert_principal k) s.principal;
  agent = on_pointer (convert_agent k) s.agent;
}
