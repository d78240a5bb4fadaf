-- ===== src/Api/RoundTrip/Parts.antt =====
-- The parts of the specification after their conversion from v1alpha1 to v1beta1 and back, by the
-- functions of api/v1alpha1/argocd_conversion.go.
use argocd_operator.Base.{false, Option, none, some, [], List, ◌∷◌, map, ◌≡◌, refl, ap, sym}
use argocd_operator.Api.Kube.{Kube, on_pointer}
use argocd_operator.Api.Parts.{
  ArgoCdNotifications, ResourceIgnoreDifference, KustomizeVersionSpec, ResourceHealthCheck,
  ResourceAction, ManagedNamespaces,
}
use argocd_operator.Api.Webhooks.{WebhookSecretKeySelector, ArgoCdWebhookSecretsSpec}
use argocd_operator.Api.Agents.{
  PrincipalServerSpec, PrincipalRedisSpec, PrincipalJwtSpec, PrincipalNamespaceSpec,
  PrincipalResourceProxySpec, PrincipalTlsSpec, AgentClientSpec, AgentRedisSpec, AgentTlsSpec,
}
use argocd_operator.Api.Alpha
use argocd_operator.Api.ToBetaParts
use argocd_operator.Api.ToBetaAgents
use argocd_operator.Api.ToAlphaParts
use argocd_operator.Api.ToAlphaAgents
use argocd_operator.Api.WebhookRefs.{
  copy_webhook_ref_to_beta, copy_webhook_ref_to_alpha, copy_github_to_beta, copy_github_to_alpha,
  copy_gitlab_to_beta, copy_gitlab_to_alpha, copy_bitbucket_to_beta, copy_bitbucket_to_alpha,
  copy_bitbucket_server_to_beta, copy_bitbucket_server_to_alpha, copy_gogs_to_beta,
  copy_gogs_to_alpha, copy_azure_devops_to_beta, copy_azure_devops_to_alpha,
  convert_webhook_secrets_to_beta, convert_webhook_secrets_to_alpha,
}

pub on_pointer_twice :
    {A B : Type 0}
    → (f : A → B) → (g : B → A) → (h : (a : A) → g (f a) ≡ a) → (x : Option A)
    → on_pointer g (on_pointer f x) ≡ x
on_pointer_twice f g h none = refl
on_pointer_twice f g h (some a) = ap some (h a)

pub map_back :
    {A B : Type 0}
    → (f : A → B) → (g : B → A) → (h : (a : A) → g (f a) ≡ a) → (xs : List A)
    → map g (map f xs) ≡ xs
map_back f g h [] = refl
map_back f g h (x ∷ xs) = λ i. h x i ∷ map_back f g h xs i

pub controller_back :
    (k : Kube)
    → (s : Alpha.ArgoCdApplicationControllerSpec k)
    → ToAlphaParts.convert_controller k (ToBetaParts.convert_controller k s) ≡ s
unfolding ToBetaParts.convert_metrics ToAlphaParts.convert_metrics ToBetaParts.convert_controller
    ToAlphaParts.convert_controller
controller_back k s i = record {
  processors = s.processors;
  log_level = s.log_level;
  log_format = s.log_format;
  resources = s.resources;
  parallelism_limit = s.parallelism_limit;
  app_sync = s.app_sync;
  sharding = s.sharding;
  env = s.env;
  metrics =
      on_pointer_twice ToBetaParts.convert_metrics ToAlphaParts.convert_metrics (λ x. refl)
        s.metrics i;
}

pub repo_back :
    (k : Kube)
    → (s : Alpha.ArgoCdRepoSpec k) → ToAlphaParts.convert_repo k (ToBetaParts.convert_repo k s) ≡ s
unfolding ToBetaParts.convert_metrics ToAlphaParts.convert_metrics ToBetaParts.convert_repo
    ToAlphaParts.convert_repo
repo_back k s i = record {
  extra_repo_command_args = s.extra_repo_command_args;
  log_level = s.log_level;
  log_format = s.log_format;
  mount_sa_token = s.mount_sa_token;
  replicas = s.replicas;
  resources = s.resources;
  service_account = s.service_account;
  verify_tls = s.verify_tls;
  auto_tls = s.auto_tls;
  image = s.image;
  version = s.version;
  exec_timeout = s.exec_timeout;
  env = s.env;
  volumes = s.volumes;
  volume_mounts = s.volume_mounts;
  init_containers = s.init_containers;
  sidecar_containers = s.sidecar_containers;
  metrics =
      on_pointer_twice ToBetaParts.convert_metrics ToAlphaParts.convert_metrics (λ x. refl)
        s.metrics i;
}

pub server_back :
    (k : Kube)
    → (s : Alpha.ArgoCdServerSpec k) → (h : s.enable_rollouts_ui ≡ false)
    → ToAlphaParts.convert_server k (ToBetaParts.convert_server k s) ≡ s
unfolding ToBetaParts.convert_metrics ToAlphaParts.convert_metrics ToBetaParts.convert_server
    ToAlphaParts.convert_server ToBetaParts.convert_grpc ToAlphaParts.convert_grpc
server_back k s h i = record {
  autoscale = s.autoscale;
  enable_rollouts_ui = sym h i;
  grpc = s.grpc;
  host = s.host;
  ingress = s.ingress;
  insecure = s.insecure;
  log_level = s.log_level;
  log_format = s.log_format;
  replicas = s.replicas;
  resources = s.resources;
  route = s.route;
  service = s.service;
  env = s.env;
  extra_command_args = s.extra_command_args;
  metrics =
      on_pointer_twice ToBetaParts.convert_metrics ToAlphaParts.convert_metrics (λ x. refl)
        s.metrics i;
}

pub notifications_back :
    (k : Kube)
    → (s : ArgoCdNotifications k)
    → ToAlphaParts.convert_notifications k (ToBetaParts.convert_notifications k s) ≡ s
unfolding ToBetaParts.convert_metrics ToAlphaParts.convert_metrics ToBetaParts.convert_notifications
    ToAlphaParts.convert_notifications
notifications_back k s i = record {
  replicas = s.replicas;
  enabled = s.enabled;
  source_namespaces = s.source_namespaces;
  env = s.env;
  image = s.image;
  version = s.version;
  resources = s.resources;
  log_level = s.log_level;
  logformat = s.logformat;
  log_format = s.log_format;
  metrics =
      on_pointer_twice ToBetaParts.convert_metrics ToAlphaParts.convert_metrics (λ x. refl)
        s.metrics i;
}

pub application_set_back :
    (k : Kube)
    → (s : Alpha.ArgoCdApplicationSet k)
    → ToAlphaParts.convert_application_set k (ToBetaParts.convert_application_set k s) ≡ s
unfolding ToAlphaParts.convert_application_set ToBetaParts.convert_application_set
    ToAlphaParts.convert_webhook_server ToBetaParts.convert_webhook_server
application_set_back k s = refl

pub dex_back :
    (k : Kube)
    → (s : Alpha.ArgoCdDexSpec k) → ToAlphaParts.convert_dex k (ToBetaParts.convert_dex k s) ≡ s
unfolding ToAlphaParts.convert_dex ToBetaParts.convert_dex
dex_back k s = refl

pub ignore_differences_back :
    (s : ResourceIgnoreDifference)
    → ToAlphaParts.convert_resource_ignore_differences
        (ToBetaParts.convert_resource_ignore_differences s)
      ≡ s
unfolding ToAlphaParts.convert_resource_ignore_differences
    ToBetaParts.convert_resource_ignore_differences ToBetaParts.convert_resource_identifiers
    ToAlphaParts.convert_resource_identifiers
ignore_differences_back s i = record {
  all = s.all;
  resource_identifiers =
      map_back ToBetaParts.convert_resource_identifiers ToAlphaParts.convert_resource_identifiers
        (λ x. refl) s.resource_identifiers i;
}

pub principal_server_back :
    (k : Kube)
    → (s : PrincipalServerSpec k)
    → ToAlphaAgents.convert_principal_server k (ToBetaAgents.convert_principal_server k s) ≡ s
unfolding ToBetaAgents.convert_principal_server ToAlphaAgents.convert_principal_server
principal_server_back k s = refl

pub principal_namespace_back :
    (s : PrincipalNamespaceSpec)
    → ToAlphaAgents.convert_principal_namespace (ToBetaAgents.convert_principal_namespace s) ≡ s
unfolding ToBetaAgents.convert_principal_namespace ToAlphaAgents.convert_principal_namespace
principal_namespace_back s = refl

pub principal_resource_proxy_back :
    (s : PrincipalResourceProxySpec)
    → ToAlphaAgents.convert_principal_resource_proxy
        (ToBetaAgents.convert_principal_resource_proxy s)
      ≡ s
unfolding ToBetaAgents.convert_principal_resource_proxy
    ToAlphaAgents.convert_principal_resource_proxy
principal_resource_proxy_back s = refl

pub principal_redis_back :
    (s : PrincipalRedisSpec)
    → ToAlphaAgents.convert_principal_redis (ToBetaAgents.convert_principal_redis s) ≡ s
unfolding ToBetaAgents.convert_principal_redis ToAlphaAgents.convert_principal_redis
principal_redis_back s = refl

pub principal_tls_back :
    (s : PrincipalTlsSpec)
    → ToAlphaAgents.convert_principal_tls (ToBetaAgents.convert_principal_tls s) ≡ s
unfolding ToBetaAgents.convert_principal_tls ToAlphaAgents.convert_principal_tls
principal_tls_back s = refl

pub principal_jwt_back :
    (s : PrincipalJwtSpec)
    → ToAlphaAgents.convert_principal_jwt (ToBetaAgents.convert_principal_jwt s) ≡ s
unfolding ToBetaAgents.convert_principal_jwt ToAlphaAgents.convert_principal_jwt
principal_jwt_back s = refl

pub principal_back :
    (k : Kube)
    → (s : Alpha.PrincipalSpec k)
    → ToAlphaAgents.convert_principal k (ToBetaAgents.convert_principal k s) ≡ s
unfolding ToBetaParts.convert_metrics ToAlphaParts.convert_metrics ToBetaAgents.convert_principal
    ToAlphaAgents.convert_principal
principal_back k s i = record {
  enabled = s.enabled;
  auth = s.auth;
  log_level = s.log_level;
  log_format = s.log_format;
  image = s.image;
  label_selector = s.label_selector;
  env = s.env;
  server =
      on_pointer_twice (ToBetaAgents.convert_principal_server k)
        (ToAlphaAgents.convert_principal_server k) (principal_server_back k) s.server i;
  namespace =
      on_pointer_twice ToBetaAgents.convert_principal_namespace
        ToAlphaAgents.convert_principal_namespace principal_namespace_back s.namespace i;
  resource_proxy =
      on_pointer_twice ToBetaAgents.convert_principal_resource_proxy
        ToAlphaAgents.convert_principal_resource_proxy principal_resource_proxy_back
        s.resource_proxy i;
  redis =
      on_pointer_twice ToBetaAgents.convert_principal_redis ToAlphaAgents.convert_principal_redis
        principal_redis_back s.redis i;
  tls =
      on_pointer_twice ToBetaAgents.convert_principal_tls ToAlphaAgents.convert_principal_tls
        principal_tls_back s.tls i;
  jwt =
      on_pointer_twice ToBetaAgents.convert_principal_jwt ToAlphaAgents.convert_principal_jwt
        principal_jwt_back s.jwt i;
  metrics =
      on_pointer_twice ToBetaParts.convert_metrics ToAlphaParts.convert_metrics (λ x. refl)
        s.metrics i;
}

pub agent_client_back :
    (s : AgentClientSpec)
    → ToAlphaAgents.convert_agent_client (ToBetaAgents.convert_agent_client s) ≡ s
unfolding ToBetaAgents.convert_agent_client ToAlphaAgents.convert_agent_client
agent_client_back s = refl

pub agent_redis_back :
    (s : AgentRedisSpec)
    → ToAlphaAgents.convert_agent_redis (ToBetaAgents.convert_agent_redis s) ≡ s
unfolding ToBetaAgents.convert_agent_redis ToAlphaAgents.convert_agent_redis
agent_redis_back s = refl

pub agent_tls_back :
    (s : AgentTlsSpec) → ToAlphaAgents.convert_agent_tls (ToBetaAgents.convert_agent_tls s) ≡ s
unfolding ToBetaAgents.convert_agent_tls ToAlphaAgents.convert_agent_tls
agent_tls_back s = refl

pub agent_back :
    (k : Kube)
    → (s : Alpha.AgentSpec k) → ToAlphaAgents.convert_agent k (ToBetaAgents.convert_agent k s) ≡ s
unfolding ToBetaParts.convert_metrics ToAlphaParts.convert_metrics ToBetaAgents.convert_agent
    ToAlphaAgents.convert_agent
agent_back k s i = record {
  enabled = s.enabled;
  creds = s.creds;
  log_level = s.log_level;
  log_format = s.log_format;
  image = s.image;
  label_selector = s.label_selector;
  env = s.env;
  client =
      on_pointer_twice ToBetaAgents.convert_agent_client ToAlphaAgents.convert_agent_client
        agent_client_back s.client i;
  tls =
      on_pointer_twice ToBetaAgents.convert_agent_tls ToAlphaAgents.convert_agent_tls agent_tls_back
        s.tls i;
  redis =
      on_pointer_twice ToBetaAgents.convert_agent_redis ToAlphaAgents.convert_agent_redis
        agent_redis_back s.redis i;
  metrics =
      on_pointer_twice ToBetaParts.convert_metrics ToAlphaParts.convert_metrics (λ x. refl)
        s.metrics i;
}

pub argo_cd_agent_back :
    (k : Kube)
    → (s : Alpha.ArgoCdAgentSpec k)
    → ToAlphaAgents.convert_argo_cd_agent k (ToBetaAgents.convert_argo_cd_agent k s) ≡ s
unfolding ToBetaAgents.convert_argo_cd_agent ToAlphaAgents.convert_argo_cd_agent
argo_cd_agent_back k s i = record {
  principal =
      on_pointer_twice (ToBetaAgents.convert_principal k) (ToAlphaAgents.convert_principal k)
        (principal_back k) s.principal i;
  agent =
      on_pointer_twice (ToBetaAgents.convert_agent k) (ToAlphaAgents.convert_agent k) (agent_back k)
        s.agent i;
}

pub kustomize_versions_back :
    (s : KustomizeVersionSpec)
    → ToAlphaParts.convert_kustomize_versions (ToBetaParts.convert_kustomize_versions s) ≡ s
unfolding ToAlphaParts.convert_kustomize_versions ToBetaParts.convert_kustomize_versions
kustomize_versions_back s = refl

pub resource_health_checks_back :
    (s : ResourceHealthCheck)
    → ToAlphaParts.convert_resource_health_checks (ToBetaParts.convert_resource_health_checks s) ≡ s
unfolding ToAlphaParts.convert_resource_health_checks ToBetaParts.convert_resource_health_checks
resource_health_checks_back s = refl

pub resource_actions_back :
    (s : ResourceAction)
    → ToAlphaParts.convert_resource_actions (ToBetaParts.convert_resource_actions s) ≡ s
unfolding ToAlphaParts.convert_resource_actions ToBetaParts.convert_resource_actions
resource_actions_back s = refl

pub namespace_management_back :
    (s : ManagedNamespaces)
    → ToAlphaParts.convert_namespace_management (ToBetaParts.convert_namespace_management s) ≡ s
unfolding ToAlphaParts.convert_namespace_management ToBetaParts.convert_namespace_management
namespace_management_back s = refl

pub webhook_ref_back :
    (x : Option WebhookSecretKeySelector)
    → on_pointer copy_webhook_ref_to_alpha (on_pointer copy_webhook_ref_to_beta x) ≡ x
unfolding copy_webhook_ref_to_beta copy_webhook_ref_to_alpha
webhook_ref_back = on_pointer_twice copy_webhook_ref_to_beta copy_webhook_ref_to_alpha (λ x. refl)

pub webhook_secrets_back :
    (s : ArgoCdWebhookSecretsSpec)
    → convert_webhook_secrets_to_alpha (convert_webhook_secrets_to_beta s) ≡ s
unfolding convert_webhook_secrets_to_alpha convert_webhook_secrets_to_beta copy_github_to_beta
    copy_github_to_alpha copy_gitlab_to_beta copy_gitlab_to_alpha copy_bitbucket_to_beta
    copy_bitbucket_to_alpha copy_bitbucket_server_to_beta copy_bitbucket_server_to_alpha
    copy_gogs_to_beta copy_gogs_to_alpha copy_azure_devops_to_beta copy_azure_devops_to_alpha
webhook_secrets_back s i = record {
  github =
      on_pointer_twice copy_github_to_beta copy_github_to_alpha
        (λ x i. record { webhook_secret_ref = webhook_ref_back x.webhook_secret_ref i }) s.github i;
  gitlab =
      on_pointer_twice copy_gitlab_to_beta copy_gitlab_to_alpha
        (λ x i. record { webhook_secret_ref = webhook_ref_back x.webhook_secret_ref i }) s.gitlab i;
  bitbucket =
      on_pointer_twice copy_bitbucket_to_beta copy_bitbucket_to_alpha
        (λ x i. record { webhook_uuid_secret_ref = webhook_ref_back x.webhook_uuid_secret_ref i })
        s.bitbucket i;
  bitbucket_server =
      on_pointer_twice copy_bitbucket_server_to_beta copy_bitbucket_server_to_alpha
        (λ x i. record { webhook_secret_ref = webhook_ref_back x.webhook_secret_ref i })
        s.bitbucket_server i;
  gogs =
      on_pointer_twice copy_gogs_to_beta copy_gogs_to_alpha
        (λ x i. record { webhook_secret_ref = webhook_ref_back x.webhook_secret_ref i }) s.gogs i;
  azure_devops =
      on_pointer_twice copy_azure_devops_to_beta copy_azure_devops_to_alpha
        (λ x i. record {
          username_secret_ref = webhook_ref_back x.username_secret_ref i;
          password_secret_ref = webhook_ref_back x.password_secret_ref i;
        })
        s.azure_devops i;
}
