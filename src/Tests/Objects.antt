-- ===== src/Tests/Objects.antt =====
-- Objects of both versions in which every opaque part is trivial and every field has its zero value,
-- but for a few.
use argocd_operator.Base.{true, false, Option, none, some, [], ◌∷◌, pos}
use argocd_operator.Api.Kube.{Kube}
use argocd_operator.Api.Alpha
use argocd_operator.Api.Beta
use argocd_operator.Api.Parts.{
  ArgoCdApplicationControllerProcessorsSpec, ArgoCdApplicationControllerShardSpec, ArgoCdCaSpec,
  ArgoCdGrafanaSpec, ArgoCdHaSpec, ArgoCdIngressSpec, ArgoCdMonitoringSpec, ArgoCdNetworkPolicySpec,
  ArgoCdNotifications, ArgoCdPrometheusSpec, ArgoCdRbacSpec, ArgoCdRouteSpec,
  ArgoCdServerAutoscaleSpec, ArgoCdServerGrpcSpec, ArgoCdServerServiceSpec, ArgoCdStatus,
  ArgoCdTlsSpec, SshHostsSpec,
}

abbrev pub kube : Kube
kube = record {
  ClusterTrustBundleProjection = Unit {0};
  Condition = Unit {0};
  ConfigMapProjection = Unit {0};
  Container = Unit {0};
  Duration = Unit {0};
  EnvVar = Unit {0};
  HorizontalPodAutoscalerSpec = Unit {0};
  IngressTLS = Unit {0};
  ObjectMeta = Unit {0};
  PullPolicy = Unit {0};
  ResourceRequirements = Unit {0};
  SecretProjection = Unit {0};
  ServiceType = Unit {0};
  TLSConfig = Unit {0};
  Toleration = Unit {0};
  Volume = Unit {0};
  VolumeMount = Unit {0};
  WildcardPolicyType = Unit {0};
  zero_pull_policy = tt;
}

abbrev zero_status : ArgoCdStatus kube
zero_status = record {
  application_controller = "";
  application_set_controller = "";
  sso = "";
  notifications_controller = "";
  phase = "";
  redis = "";
  repo = "";
  server = "";
  repo_tls_checksum = "";
  redis_tls_checksum = "";
  host = "";
  conditions = [];
}

abbrev zero_application_controller_processors_spec : ArgoCdApplicationControllerProcessorsSpec
zero_application_controller_processors_spec = record { operation = pos 0; status = pos 0 }

abbrev zero_application_controller_shard_spec : ArgoCdApplicationControllerShardSpec
zero_application_controller_shard_spec = record {
  enabled = false;
  replicas = pos 0;
  dynamic_scaling_enabled = none;
  min_shards = pos 0;
  max_shards = pos 0;
  clusters_per_shard = pos 0;
  distribution_algorithm = "";
}

abbrev zero_application_controller_spec_alpha : Alpha.ArgoCdApplicationControllerSpec kube
zero_application_controller_spec_alpha = record {
  processors = zero_application_controller_processors_spec;
  log_level = "";
  log_format = "";
  resources = none;
  parallelism_limit = pos 0;
  app_sync = none;
  sharding = zero_application_controller_shard_spec;
  env = [];
  metrics = none;
}

abbrev zero_ingress_spec : ArgoCdIngressSpec kube
zero_ingress_spec = record {
  annotations = [];
  enabled = false;
  ingress_class_name = none;
  path = "";
  tls = [];
}

abbrev zero_route_spec : ArgoCdRouteSpec kube
zero_route_spec = record {
  annotations = [];
  labels = [];
  enabled = false;
  path = "";
  tls = none;
  wildcard_policy = none;
}

abbrev zero_grafana_spec : ArgoCdGrafanaSpec kube
zero_grafana_spec = record {
  enabled = false;
  host = "";
  image = "";
  ingress = zero_ingress_spec;
  resources = none;
  route = zero_route_spec;
  size = none;
  version = "";
}

abbrev zero_ha_spec : ArgoCdHaSpec kube
zero_ha_spec = record {
  enabled = false;
  redis_proxy_image = "";
  redis_proxy_version = "";
  resources = none;
}

abbrev zero_ssh_hosts_spec : SshHostsSpec
zero_ssh_hosts_spec = record { exclude_default_hosts = false; keys = "" }

abbrev zero_monitoring_spec : ArgoCdMonitoringSpec
zero_monitoring_spec = record { enabled = false; disable_metrics = none }

abbrev zero_network_policy_spec : ArgoCdNetworkPolicySpec
zero_network_policy_spec = record { enabled = none }

abbrev zero_notifications : ArgoCdNotifications kube
zero_notifications = record {
  replicas = none;
  enabled = false;
  source_namespaces = [];
  env = [];
  image = "";
  version = "";
  resources = none;
  log_level = "";
  logformat = "";
  log_format = "";
  metrics = none;
}

abbrev zero_prometheus_spec : ArgoCdPrometheusSpec kube
zero_prometheus_spec = record {
  enabled = false;
  host = "";
  ingress = zero_ingress_spec;
  route = zero_route_spec;
  size = none;
}

abbrev zero_rbac_spec : ArgoCdRbacSpec
zero_rbac_spec = record {
  default_policy = none;
  policy = none;
  scopes = none;
  policy_matcher_mode = none;
}

abbrev zero_redis_spec_alpha : Alpha.ArgoCdRedisSpec kube
zero_redis_spec_alpha = record {
  image = "";
  resources = none;
  version = "";
  disable_tls_verification = false;
  auto_tls = "";
  annotations = [];
  labels = [];
}

abbrev zero_repo_spec_alpha : Alpha.ArgoCdRepoSpec kube
zero_repo_spec_alpha = record {
  extra_repo_command_args = [];
  log_level = "";
  log_format = "";
  mount_sa_token = false;
  replicas = none;
  resources = none;
  service_account = "";
  verify_tls = false;
  auto_tls = "";
  image = "";
  version = "";
  exec_timeout = none;
  env = [];
  volumes = [];
  volume_mounts = [];
  init_containers = [];
  sidecar_containers = [];
  metrics = none;
}

abbrev zero_server_autoscale_spec : ArgoCdServerAutoscaleSpec kube
zero_server_autoscale_spec = record { enabled = false; hpa = none }

abbrev zero_server_grpc_spec : ArgoCdServerGrpcSpec kube
zero_server_grpc_spec = record { host = ""; ingress = zero_ingress_spec }

abbrev zero_server_service_spec : ArgoCdServerServiceSpec kube
zero_server_service_spec = record { type = tt }

abbrev zero_server_spec_alpha : Alpha.ArgoCdServerSpec kube
zero_server_spec_alpha = record {
  autoscale = zero_server_autoscale_spec;
  enable_rollouts_ui = false;
  grpc = zero_server_grpc_spec;
  host = "";
  ingress = zero_ingress_spec;
  insecure = false;
  log_level = "";
  log_format = "";
  replicas = none;
  resources = none;
  route = zero_route_spec;
  service = zero_server_service_spec;
  env = [];
  extra_command_args = [];
  metrics = none;
}

abbrev zero_ca_spec : ArgoCdCaSpec
zero_ca_spec = record { config_map_name = ""; secret_name = "" }

abbrev zero_tls_spec : ArgoCdTlsSpec
zero_tls_spec = record { ca = zero_ca_spec; initial_certs = [] }

abbrev zero_application_controller_spec_beta : Beta.ArgoCdApplicationControllerSpec kube
zero_application_controller_spec_beta = record {
  init_containers = [];
  processors = zero_application_controller_processors_spec;
  log_level = "";
  log_format = "";
  resources = none;
  parallelism_limit = pos 0;
  app_sync = none;
  sharding = zero_application_controller_shard_spec;
  sidecar_containers = [];
  env = [];
  enabled = none;
  extra_command_args = [];
  volumes = [];
  volume_mounts = [];
  annotations = [];
  labels = [];
  respect_rbac = "";
  metrics = none;
}

abbrev zero_image_updater_spec_beta : Beta.ArgoCdImageUpdaterSpec kube
zero_image_updater_spec_beta = record { enabled = false; env = []; resources = none }

abbrev zero_redis_spec_beta : Beta.ArgoCdRedisSpec kube
zero_redis_spec_beta = record {
  image = "";
  resources = none;
  version = "";
  disable_tls_verification = false;
  auto_tls = "";
  enabled = none;
  remote = none;
  annotations = [];
  labels = [];
}

abbrev zero_repo_spec_beta : Beta.ArgoCdRepoSpec kube
zero_repo_spec_beta = record {
  extra_repo_command_args = [];
  log_level = "";
  log_format = "";
  mount_sa_token = false;
  replicas = none;
  resources = none;
  service_account = "";
  verify_tls = false;
  auto_tls = "";
  image = "";
  version = "";
  exec_timeout = none;
  env = [];
  volumes = [];
  volume_mounts = [];
  init_containers = [];
  sidecar_containers = [];
  enabled = none;
  remote = none;
  annotations = [];
  labels = [];
  system_ca_trust = none;
  metrics = none;
}

abbrev zero_server_spec_beta : Beta.ArgoCdServerSpec kube
zero_server_spec_beta = record {
  autoscale = zero_server_autoscale_spec;
  enable_rollouts_ui = false;
  grpc = zero_server_grpc_spec;
  init_containers = [];
  host = "";
  ingress = zero_ingress_spec;
  insecure = false;
  log_level = "";
  log_format = "";
  replicas = none;
  resources = none;
  route = zero_route_spec;
  service = zero_server_service_spec;
  sidecar_containers = [];
  env = [];
  extra_command_args = [];
  enabled = none;
  volumes = [];
  volume_mounts = [];
  annotations = [];
  labels = [];
  metrics = none;
}

-- An object of v1alpha1 with the given `sso` and `dex`.
abbrev pub alpha :
    Option (Alpha.ArgoCdSsoSpec kube) → Option (Alpha.ArgoCdDexSpec kube) → Alpha.ArgoCd kube
alpha sso dex = record {
  object_meta = tt;
  spec = record {
    application_set = none;
    application_instance_label_key = "";
    installation_id = "";
    config_management_plugins = "";
    controller = zero_application_controller_spec_alpha;
    disable_admin = false;
    extra_config = [];
    ga_tracking_id = "";
    ga_anonymize_users = false;
    grafana = zero_grafana_spec;
    ha = zero_ha_spec;
    help_chat_url = "https://help";
    help_chat_text = "";
    image = "";
    image_pull_policy = tt;
    import = none;
    initial_repositories = "";
    initial_ssh_known_hosts = zero_ssh_hosts_spec;
    kustomize_build_options = "";
    kustomize_versions = [];
    oidc_config = "";
    monitoring = zero_monitoring_spec;
    network_policy = zero_network_policy_spec;
    node_placement = none;
    notifications = zero_notifications;
    prometheus = zero_prometheus_spec;
    rbac = zero_rbac_spec;
    redis = zero_redis_spec_alpha;
    repo = zero_repo_spec_alpha;
    repository_credentials = "";
    resource_customizations = "";
    resource_health_checks = [];
    resource_ignore_differences = none;
    resource_actions = record { group = "apps"; kind = "Deployment"; action = "restart" } ∷ [];
    resource_exclusions = "";
    resource_inclusions = "";
    resource_tracking_method = "";
    server = zero_server_spec_alpha;
    source_namespaces = [];
    sso = sso;
    status_badge_enabled = false;
    tls = zero_tls_spec;
    users_anonymous_enabled = false;
    version = "";
    banner = none;
    dex = dex;
    default_cluster_scoped_role_disabled = false;
    aggregated_cluster_roles = false;
    argo_cd_agent = none;
    namespace_management = [];
    webhook_secrets = none;
  };
  status = zero_status;
}

abbrev pub beta : Beta.ArgoCd kube
beta = record {
  object_meta = tt;
  spec = record {
    application_set = none;
    application_instance_label_key = "";
    installation_id = "lost";
    config_management_plugins = "";
    controller = zero_application_controller_spec_beta;
    disable_admin = false;
    extra_config = [];
    ga_tracking_id = "";
    ga_anonymize_users = false;
    grafana = zero_grafana_spec;
    ha = zero_ha_spec;
    help_chat_url = "";
    help_chat_text = "";
    image = "";
    image_updater = zero_image_updater_spec_beta;
    image_pull_policy = tt;
    import = none;
    initial_repositories = "";
    initial_ssh_known_hosts = zero_ssh_hosts_spec;
    kustomize_build_options = "";
    kustomize_versions = [];
    local_users = [];
    oidc_config = "";
    monitoring = zero_monitoring_spec;
    network_policy = zero_network_policy_spec;
    node_placement = none;
    notifications = zero_notifications;
    prometheus = zero_prometheus_spec;
    rbac = zero_rbac_spec;
    redis = zero_redis_spec_beta;
    repo = zero_repo_spec_beta;
    repository_credentials = "";
    resource_health_checks = [];
    resource_ignore_differences = none;
    resource_actions = [];
    resource_exclusions = "";
    resource_inclusions = "";
    resource_tracking_method = "";
    server = zero_server_spec_beta;
    source_namespaces = [];
    sso = none;
    status_badge_enabled = false;
    tls = zero_tls_spec;
    users_anonymous_enabled = false;
    version = "";
    cluster_domain = "lost";
    banner = none;
    default_cluster_scoped_role_disabled = false;
    aggregated_cluster_roles = false;
    cmd_params = [];
    argo_cd_agent = none;
    namespace_management = [];
    webhook_secrets = none;
    web_terminal_enabled = none;
  };
  status = zero_status;
}

abbrev pub dex : Alpha.ArgoCdDexSpec kube
dex = record {
  config = "";
  groups = [];
  image = "";
  openshift_oauth = true;
  resources = none;
  version = "";
  annotations = [];
  labels = [];
}

abbrev pub keycloak : Alpha.ArgoCdSsoSpec kube
keycloak = record {
  provider = "keycloak";
  dex = none;
  keycloak = none;
  image = "";
  resources = none;
  verify_tls = none;
  version = "v1";
}

abbrev pub plain : Alpha.ArgoCdSsoSpec kube
plain = record {
  provider = "dex";
  dex = some dex;
  keycloak = none;
  image = "";
  resources = none;
  verify_tls = none;
  version = "";
}
