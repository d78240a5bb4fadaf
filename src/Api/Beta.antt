-- ===== src/Api/Beta.antt =====
-- The structs of api/v1beta1/argocd_types.go that differ from v1alpha1 or are new.
use argocd_operator.Base.{String, Bool, Option, List, ℤ}
use argocd_operator.Base.Map.{Map}
use argocd_operator.Api.Kube.{Kube}
use argocd_operator.Api.Parts.{
  ArgoCdApplicationControllerProcessorsSpec, ArgoCdApplicationControllerShardSpec,
  ArgoCdIngressSpec, ArgoCdRouteSpec, ArgoCdGrafanaSpec, ArgoCdHaSpec, ArgoCdImportSpec,
  ArgoCdKeycloakSpec, ArgoCdMetricsSpec, ArgoCdNotifications, ArgoCdPrometheusSpec, ArgoCdRbacSpec,
  ArgoCdServerAutoscaleSpec, ArgoCdServerGrpcSpec, ArgoCdServerServiceSpec, ResourceHealthCheck,
  ResourceIgnoreDifference, ResourceAction, KustomizeVersionSpec, ArgoCdMonitoringSpec,
  ArgoCdNodePlacementSpec, ArgoCdNetworkPolicySpec, ManagedNamespaces, ArgoCdStatus, Banner,
  ArgoCdTlsSpec, SshHostsSpec, WebhookServerSpec,
}
use argocd_operator.Api.Agents.{
  PrincipalServerSpec, PrincipalRedisSpec, PrincipalJwtSpec, PrincipalNamespaceSpec,
  PrincipalResourceProxySpec, PrincipalTlsSpec, AgentClientSpec, AgentRedisSpec, AgentTlsSpec,
}
use argocd_operator.Api.Webhooks.{ArgoCdWebhookSecretsSpec}

pub record ArgoCdApplicationControllerSpec (k : Kube) : Type 0 where
  pub init_containers : List k.Container
  pub processors : ArgoCdApplicationControllerProcessorsSpec
  pub log_level : String
  pub log_format : String
  pub resources : Option k.ResourceRequirements
  pub parallelism_limit : ℤ
  pub app_sync : Option k.Duration
  pub sharding : ArgoCdApplicationControllerShardSpec
  pub sidecar_containers : List k.Container
  pub env : List k.EnvVar
  pub enabled : Option Bool
  pub extra_command_args : List String
  pub volumes : List k.Volume
  pub volume_mounts : List k.VolumeMount
  pub annotations : Map String String
  pub labels : Map String String
  pub respect_rbac : String
  pub metrics : Option ArgoCdMetricsSpec

pub record ArgoCdApplicationSet (k : Kube) : Type 0 where
  pub env : List k.EnvVar
  pub extra_command_args : List String
  pub image : String
  pub version : String
  pub resources : Option k.ResourceRequirements
  pub log_level : String
  pub webhook_server : WebhookServerSpec k
  pub scm_root_ca_config_map : String
  pub enabled : Option Bool
  pub source_namespaces : List String
  pub scm_providers : List String
  pub annotations : Map String String
  pub labels : Map String String
  pub volumes : List k.Volume
  pub volume_mounts : List k.VolumeMount
  pub logformat : String
  pub log_format : String

pub record ArgoCdDexSpec (k : Kube) : Type 0 where
  pub enable_sa_token_renewal : Option Bool
  pub config : String
  pub groups : List String
  pub image : String
  pub openshift_oauth : Bool
  pub resources : Option k.ResourceRequirements
  pub version : String
  pub env : List k.EnvVar
  pub volumes : List k.Volume
  pub volume_mounts : List k.VolumeMount
  pub annotations : Map String String
  pub labels : Map String String

pub record ArgoCdImageUpdaterSpec (k : Kube) : Type 0 where
  pub enabled : Bool
  pub env : List k.EnvVar
  pub resources : Option k.ResourceRequirements

pub record ArgoCdRedisSpec (k : Kube) : Type 0 where
  pub image : String
  pub resources : Option k.ResourceRequirements
  pub version : String
  pub disable_tls_verification : Bool
  pub auto_tls : String
  pub enabled : Option Bool
  pub remote : Option String
  pub annotations : Map String String
  pub labels : Map String String

pub record ArgoCdSystemCaTrustSpec (k : Kube) : Type 0 where
  pub drop_image_certificates : Bool
  pub cluster_trust_bundles : List k.ClusterTrustBundleProjection
  pub secrets : List k.SecretProjection
  pub config_maps : List k.ConfigMapProjection

pub record ArgoCdRepoSpec (k : Kube) : Type 0 where
  pub extra_repo_command_args : List String
  pub log_level : String
  pub log_format : String
  pub mount_sa_token : Bool
  pub replicas : Option ℤ
  pub resources : Option k.ResourceRequirements
  pub service_account : String
  pub verify_tls : Bool
  pub auto_tls : String
  pub image : String
  pub version : String
  pub exec_timeout : Option ℤ
  pub env : List k.EnvVar
  pub volumes : List k.Volume
  pub volume_mounts : List k.VolumeMount
  pub init_containers : List k.Container
  pub sidecar_containers : List k.Container
  pub enabled : Option Bool
  pub remote : Option String
  pub annotations : Map String String
  pub labels : Map String String
  pub system_ca_trust : Option (ArgoCdSystemCaTrustSpec k)
  pub metrics : Option ArgoCdMetricsSpec

pub record ArgoCdServerSpec (k : Kube) : Type 0 where
  pub autoscale : ArgoCdServerAutoscaleSpec k
  pub enable_rollouts_ui : Bool
  pub grpc : ArgoCdServerGrpcSpec k
  pub init_containers : List k.Container
  pub host : String
  pub ingress : ArgoCdIngressSpec k
  pub insecure : Bool
  pub log_level : String
  pub log_format : String
  pub replicas : Option ℤ
  pub resources : Option k.ResourceRequirements
  pub route : ArgoCdRouteSpec k
  pub service : ArgoCdServerServiceSpec k
  pub sidecar_containers : List k.Container
  pub env : List k.EnvVar
  pub extra_command_args : List String
  pub enabled : Option Bool
  pub volumes : List k.Volume
  pub volume_mounts : List k.VolumeMount
  pub annotations : Map String String
  pub labels : Map String String
  pub metrics : Option ArgoCdMetricsSpec

pub record ArgoCdSsoSpec (k : Kube) : Type 0 where
  pub provider : String
  pub dex : Option (ArgoCdDexSpec k)
  pub keycloak : Option (ArgoCdKeycloakSpec k)

pub record LocalUserSpec : Type 0 where
  pub name : String
  pub enabled : Option Bool
  pub api_key : Option Bool
  pub login : Bool
  pub token_lifetime : String
  pub auto_renew_token : Option Bool

pub record PrincipalSpec (k : Kube) : Type 0 where
  pub enabled : Option Bool
  pub auth : String
  pub log_level : String
  pub log_format : String
  pub image : String
  pub env : List k.EnvVar
  pub server : Option (PrincipalServerSpec k)
  pub namespace : Option PrincipalNamespaceSpec
  pub resources : Option k.ResourceRequirements
  pub resource_proxy : Option PrincipalResourceProxySpec
  pub redis : Option PrincipalRedisSpec
  pub tls : Option PrincipalTlsSpec
  pub jwt : Option PrincipalJwtSpec
  pub destination_based_mapping : Option Bool
  pub label_selector : String
  pub metrics : Option ArgoCdMetricsSpec

pub record DestinationBasedMappingSpec : Type 0 where
  pub enabled : Option Bool
  pub create_namespace : Option Bool

pub record AgentSpec (k : Kube) : Type 0 where
  pub enabled : Option Bool
  pub allowed_namespaces : List String
  pub creds : String
  pub log_level : String
  pub log_format : String
  pub image : String
  pub env : List k.EnvVar
  pub client : Option AgentClientSpec
  pub redis : Option AgentRedisSpec
  pub resources : Option k.ResourceRequirements
  pub tls : Option AgentTlsSpec
  pub destination_based_mapping : Option DestinationBasedMappingSpec
  pub label_selector : String
  pub metrics : Option ArgoCdMetricsSpec

pub record ArgoCdAgentSpec (k : Kube) : Type 0 where
  pub principal : Option (PrincipalSpec k)
  pub agent : Option (AgentSpec k)

pub record ArgoCdSpec (k : Kube) : Type 0 where
  pub application_set : Option (ArgoCdApplicationSet k)
  pub application_instance_label_key : String
  pub installation_id : String
  pub config_management_plugins : String
  pub controller : ArgoCdApplicationControllerSpec k
  pub disable_admin : Bool
  pub extra_config : Map String String
  pub ga_tracking_id : String
  pub ga_anonymize_users : Bool
  pub grafana : ArgoCdGrafanaSpec k
  pub ha : ArgoCdHaSpec k
  pub help_chat_url : String
  pub help_chat_text : String
  pub image : String
  pub image_updater : ArgoCdImageUpdaterSpec k
  pub image_pull_policy : k.PullPolicy
  pub import : Option ArgoCdImportSpec
  pub initial_repositories : String
  pub initial_ssh_known_hosts : SshHostsSpec
  pub kustomize_build_options : String
  pub kustomize_versions : List KustomizeVersionSpec
  pub local_users : List LocalUserSpec
  pub oidc_config : String
  pub monitoring : ArgoCdMonitoringSpec
  pub network_policy : ArgoCdNetworkPolicySpec
  pub node_placement : Option (ArgoCdNodePlacementSpec k)
  pub notifications : ArgoCdNotifications k
  pub prometheus : ArgoCdPrometheusSpec k
  pub rbac : ArgoCdRbacSpec
  pub redis : ArgoCdRedisSpec k
  pub repo : ArgoCdRepoSpec k
  pub repository_credentials : String
  pub resource_health_checks : List ResourceHealthCheck
  pub resource_ignore_differences : Option ResourceIgnoreDifference
  pub resource_actions : List ResourceAction
  pub resource_exclusions : String
  pub resource_inclusions : String
  pub resource_tracking_method : String
  pub server : ArgoCdServerSpec k
  pub source_namespaces : List String
  pub sso : Option (ArgoCdSsoSpec k)
  pub status_badge_enabled : Bool
  pub tls : ArgoCdTlsSpec
  pub users_anonymous_enabled : Bool
  pub version : String
  pub cluster_domain : String
  pub banner : Option Banner
  pub default_cluster_scoped_role_disabled : Bool
  pub aggregated_cluster_roles : Bool
  pub cmd_params : Map String String
  pub argo_cd_agent : Option (ArgoCdAgentSpec k)
  pub namespace_management : List ManagedNamespaces
  pub webhook_secrets : Option ArgoCdWebhookSecretsSpec
  pub web_terminal_enabled : Option Bool

-- The type metadata, which a conversion does not set, is left out.
pub record ArgoCd (k : Kube) : Type 0 where
  pub object_meta : k.ObjectMeta
  pub spec : ArgoCdSpec k
  pub status : ArgoCdStatus k
