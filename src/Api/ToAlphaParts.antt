-- ===== src/Api/ToAlphaParts.antt =====
-- The conversions of the parts of the specification from v1beta1 to v1alpha1, in
-- api/v1alpha1/argocd_conversion.go. A function is given on the values that its pointers point to;
-- `on_pointer` takes nil to nil.
use argocd_operator.Api.Alpha
use argocd_operator.Api.Beta
use argocd_operator.Api.Kube.{on_pointer}
use argocd_operator.Base.{map}
use argocd_operator.Base.{false, none}
use argocd_operator.Api.Kube.{Kube}
use argocd_operator.Api.Parts.{
  ArgoCdGrafanaSpec, ArgoCdHaSpec, ArgoCdMetricsSpec, ArgoCdNotifications, ArgoCdPrometheusSpec,
  ArgoCdServerGrpcSpec, ResourceHealthCheck, ResourceIdentifiers, ResourceIgnoreDifference,
  ResourceAction, KustomizeVersionSpec, ManagedNamespaces, ArgoCdTlsSpec, WebhookServerSpec,
}

unfoldable pub convert_metrics : ArgoCdMetricsSpec → ArgoCdMetricsSpec
convert_metrics s = s

unfoldable pub convert_controller :
    (k : Kube) → Beta.ArgoCdApplicationControllerSpec k → Alpha.ArgoCdApplicationControllerSpec k
unfolding convert_metrics
convert_controller k s = record {
  processors = s.processors;
  log_level = s.log_level;
  log_format = s.log_format;
  resources = s.resources;
  parallelism_limit = s.parallelism_limit;
  app_sync = s.app_sync;
  sharding = s.sharding;
  env = s.env;
  metrics = on_pointer convert_metrics s.metrics;
}

unfoldable pub convert_webhook_server : (k : Kube) → WebhookServerSpec k → WebhookServerSpec k
convert_webhook_server k s = record { host = s.host; ingress = s.ingress; route = s.route }

unfoldable pub convert_application_set :
    (k : Kube) → Beta.ArgoCdApplicationSet k → Alpha.ArgoCdApplicationSet k
unfolding convert_webhook_server
convert_application_set k s = record {
  env = s.env;
  extra_command_args = s.extra_command_args;
  image = s.image;
  version = s.version;
  resources = s.resources;
  log_level = s.log_level;
  webhook_server = convert_webhook_server k s.webhook_server;
  log_format = s.log_format;
}

unfoldable pub convert_grafana : (k : Kube) → ArgoCdGrafanaSpec k → ArgoCdGrafanaSpec k
convert_grafana k s = record {
  enabled = s.enabled;
  host = s.host;
  image = s.image;
  ingress = s.ingress;
  resources = s.resources;
  route = s.route;
  size = s.size;
  version = s.version;
}

unfoldable pub convert_prometheus : (k : Kube) → ArgoCdPrometheusSpec k → ArgoCdPrometheusSpec k
convert_prometheus k s = record {
  enabled = s.enabled;
  host = s.host;
  ingress = s.ingress;
  route = s.route;
  size = s.size;
}

unfoldable pub convert_notifications : (k : Kube) → ArgoCdNotifications k → ArgoCdNotifications k
unfolding convert_metrics
convert_notifications k s = record {
  replicas = s.replicas;
  enabled = s.enabled;
  source_namespaces = s.source_namespaces;
  env = s.env;
  image = s.image;
  version = s.version;
  resources = s.resources;
  log_level = s.log_level;
  logformat = s.logformat;
  log_format = s.log_format;
  metrics = on_pointer convert_metrics s.metrics;
}

unfoldable pub convert_dex : (k : Kube) → Beta.ArgoCdDexSpec k → Alpha.ArgoCdDexSpec k
convert_dex k s = record {
  config = s.config;
  groups = s.groups;
  image = s.image;
  openshift_oauth = s.openshift_oauth;
  resources = s.resources;
  version = s.version;
  annotations = s.annotations;
  labels = s.labels;
}

unfoldable pub convert_sso : (k : Kube) → Beta.ArgoCdSsoSpec k → Alpha.ArgoCdSsoSpec k
unfolding convert_dex
convert_sso k s = record {
  provider = s.provider;
  dex = on_pointer (convert_dex k) s.dex;
  keycloak = s.keycloak;
  image = "";
  resources = none;
  verify_tls = none;
  version = "";
}

unfoldable pub convert_ha : (k : Kube) → ArgoCdHaSpec k → ArgoCdHaSpec k
convert_ha k s = record {
  enabled = s.enabled;
  redis_proxy_image = s.redis_proxy_image;
  redis_proxy_version = s.redis_proxy_version;
  resources = s.resources;
}

unfoldable pub convert_tls : ArgoCdTlsSpec → ArgoCdTlsSpec
convert_tls s = record { ca = s.ca; initial_certs = s.initial_certs }

unfoldable pub convert_grpc : (k : Kube) → ArgoCdServerGrpcSpec k → ArgoCdServerGrpcSpec k
convert_grpc k s = record { host = s.host; ingress = s.ingress }

unfoldable pub convert_server : (k : Kube) → Beta.ArgoCdServerSpec k → Alpha.ArgoCdServerSpec k
unfolding convert_grpc convert_metrics
convert_server k s = record {
  autoscale = s.autoscale;
  enable_rollouts_ui = false;
  grpc = convert_grpc k s.grpc;
  host = s.host;
  ingress = s.ingress;
  insecure = s.insecure;
  log_level = s.log_level;
  log_format = s.log_format;
  replicas = s.replicas;
  resources = s.resources;
  route = s.route;
  service = s.service;
  env = s.env;
  extra_command_args = s.extra_command_args;
  metrics = on_pointer convert_metrics s.metrics;
}

unfoldable pub convert_kustomize_versions : KustomizeVersionSpec → KustomizeVersionSpec
convert_kustomize_versions s = record { version = s.version; path = s.path }

unfoldable pub convert_resource_identifiers : ResourceIdentifiers → ResourceIdentifiers
convert_resource_identifiers s = record {
  group = s.group;
  kind = s.kind;
  customization = s.customization;
}

unfoldable pub convert_resource_ignore_differences :
    ResourceIgnoreDifference → ResourceIgnoreDifference
unfolding convert_resource_identifiers
convert_resource_ignore_differences s = record {
  all = s.all;
  resource_identifiers = map convert_resource_identifiers s.resource_identifiers;
}

unfoldable pub convert_resource_actions : ResourceAction → ResourceAction
convert_resource_actions s = record { group = s.group; kind = s.kind; action = s.action }

unfoldable pub convert_resource_health_checks : ResourceHealthCheck → ResourceHealthCheck
convert_resource_health_checks s = record { group = s.group; kind = s.kind; check = s.check }

unfoldable pub convert_redis : (k : Kube) → Beta.ArgoCdRedisSpec k → Alpha.ArgoCdRedisSpec k
convert_redis k s = record {
  image = s.image;
  resources = s.resources;
  version = s.version;
  disable_tls_verification = s.disable_tls_verification;
  auto_tls = s.auto_tls;
  annotations = s.annotations;
  labels = s.labels;
}

unfoldable pub convert_repo : (k : Kube) → Beta.ArgoCdRepoSpec k → Alpha.ArgoCdRepoSpec k
unfolding convert_metrics
convert_repo k s = record {
  extra_repo_command_args = s.extra_repo_command_args;
  log_level = s.log_level;
  log_format = s.log_format;
  mount_sa_token = s.mount_sa_token;
  replicas = s.replicas;
  resources = s.resources;
  service_account = s.service_account;
  verify_tls = s.verify_tls;
  auto_tls = s.auto_tls;
  image = s.image;
  version = s.version;
  exec_timeout = s.exec_timeout;
  env = s.env;
  volumes = s.volumes;
  volume_mounts = s.volume_mounts;
  init_containers = s.init_containers;
  sidecar_containers = s.sidecar_containers;
  metrics = on_pointer convert_metrics s.metrics;
}

unfoldable pub convert_namespace_management : ManagedNamespaces → ManagedNamespaces
convert_namespace_management s = record { name = s.name; allow_managed_by = s.allow_managed_by }
