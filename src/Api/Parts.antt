-- ===== src/Api/Parts.antt =====
-- The structs of api/v1beta1/argocd_types.go that api/v1alpha1/argocd_types.go declares alike, so
-- that the conversions cast them or copy them field by field. A pointer is an Option; a nil slice or
-- map is an empty one; an integer is an integer.
use argocd_operator.Base.{String, Bool, Option, List, ℤ}
use argocd_operator.Base.Map.{Map}
use argocd_operator.Api.Kube.{Kube}

pub record ArgoCdApplicationControllerProcessorsSpec : Type 0 where
  pub operation : ℤ
  pub status : ℤ

pub record ArgoCdApplicationControllerShardSpec : Type 0 where
  pub enabled : Bool
  pub replicas : ℤ
  pub dynamic_scaling_enabled : Option Bool
  pub min_shards : ℤ
  pub max_shards : ℤ
  pub clusters_per_shard : ℤ
  pub distribution_algorithm : String

pub record ArgoCdCaSpec : Type 0 where
  pub config_map_name : String
  pub secret_name : String

pub record ArgoCdIngressSpec (k : Kube) : Type 0 where
  pub annotations : Map String String
  pub enabled : Bool
  pub ingress_class_name : Option String
  pub path : String
  pub tls : List k.IngressTLS

pub record ArgoCdRouteSpec (k : Kube) : Type 0 where
  pub annotations : Map String String
  pub labels : Map String String
  pub enabled : Bool
  pub path : String
  pub tls : Option k.TLSConfig
  pub wildcard_policy : Option k.WildcardPolicyType

pub record ArgoCdGrafanaSpec (k : Kube) : Type 0 where
  pub enabled : Bool
  pub host : String
  pub image : String
  pub ingress : ArgoCdIngressSpec k
  pub resources : Option k.ResourceRequirements
  pub route : ArgoCdRouteSpec k
  pub size : Option ℤ
  pub version : String

pub record ArgoCdHaSpec (k : Kube) : Type 0 where
  pub enabled : Bool
  pub redis_proxy_image : String
  pub redis_proxy_version : String
  pub resources : Option k.ResourceRequirements

pub record ArgoCdImportSpec : Type 0 where
  pub name : String
  pub namespace : Option String

pub record ArgoCdKeycloakSpec (k : Kube) : Type 0 where
  pub image : String
  pub resources : Option k.ResourceRequirements
  pub root_ca : String
  pub version : String
  pub verify_tls : Option Bool
  pub host : String

pub record ArgoCdMetricsSpec : Type 0 where
  pub interval : String
  pub scrape_timeout : String

pub record ArgoCdNotifications (k : Kube) : Type 0 where
  pub replicas : Option ℤ
  pub enabled : Bool
  pub source_namespaces : List String
  pub env : List k.EnvVar
  pub image : String
  pub version : String
  pub resources : Option k.ResourceRequirements
  pub log_level : String
  pub logformat : String
  pub log_format : String
  pub metrics : Option ArgoCdMetricsSpec

pub record ArgoCdPrometheusSpec (k : Kube) : Type 0 where
  pub enabled : Bool
  pub host : String
  pub ingress : ArgoCdIngressSpec k
  pub route : ArgoCdRouteSpec k
  pub size : Option ℤ

pub record ArgoCdRbacSpec : Type 0 where
  pub default_policy : Option String
  pub policy : Option String
  pub scopes : Option String
  pub policy_matcher_mode : Option String

pub record ArgoCdServerAutoscaleSpec (k : Kube) : Type 0 where
  pub enabled : Bool
  pub hpa : Option k.HorizontalPodAutoscalerSpec

pub record ArgoCdServerGrpcSpec (k : Kube) : Type 0 where
  pub host : String
  pub ingress : ArgoCdIngressSpec k

pub record ArgoCdServerServiceSpec (k : Kube) : Type 0 where
  pub type : k.ServiceType

pub record ResourceHealthCheck : Type 0 where
  pub group : String
  pub kind : String
  pub check : String

pub record IgnoreDifferenceCustomization : Type 0 where
  pub jq_path_expressions : List String
  pub json_pointers : List String
  pub managed_fields_managers : List String

pub record ResourceIdentifiers : Type 0 where
  pub group : String
  pub kind : String
  pub customization : IgnoreDifferenceCustomization

pub record ResourceIgnoreDifference : Type 0 where
  pub all : Option IgnoreDifferenceCustomization
  pub resource_identifiers : List ResourceIdentifiers

pub record ResourceAction : Type 0 where
  pub group : String
  pub kind : String
  pub action : String

pub record KustomizeVersionSpec : Type 0 where
  pub version : String
  pub path : String

pub record ArgoCdMonitoringSpec : Type 0 where
  pub enabled : Bool
  pub disable_metrics : Option Bool

pub record ArgoCdNodePlacementSpec (k : Kube) : Type 0 where
  pub node_selector : Map String String
  pub tolerations : List k.Toleration

pub record ArgoCdNetworkPolicySpec : Type 0 where
  pub enabled : Option Bool

pub record ManagedNamespaces : Type 0 where
  pub name : String
  pub allow_managed_by : Bool

pub record ArgoCdStatus (k : Kube) : Type 0 where
  pub application_controller : String
  pub application_set_controller : String
  pub sso : String
  pub notifications_controller : String
  pub phase : String
  pub redis : String
  pub repo : String
  pub server : String
  pub repo_tls_checksum : String
  pub redis_tls_checksum : String
  pub host : String
  pub conditions : List k.Condition

pub record Banner : Type 0 where
  pub content : String
  pub url : String
  pub permanent : Bool
  pub position : String

pub record ArgoCdTlsSpec : Type 0 where
  pub ca : ArgoCdCaSpec
  pub initial_certs : Map String String

pub record SshHostsSpec : Type 0 where
  pub exclude_default_hosts : Bool
  pub keys : String

pub record WebhookServerSpec (k : Kube) : Type 0 where
  pub host : String
  pub ingress : ArgoCdIngressSpec k
  pub route : ArgoCdRouteSpec k
