-- ===== src/Api/RoundTrip.antt =====
-- ArgoCD.ConvertTo followed by ArgoCD.ConvertFrom, of api/v1alpha1/argocd_conversion.go.
pub mod Parts
use argocd_operator.Base.{String, Bool, true, false, Option, none, some, ◌≡◌, refl, ap, sym}
use argocd_operator.Api.Kube.{Kube, on_pointer}
use argocd_operator.Api.Alpha
use argocd_operator.Api.Beta
use argocd_operator.Api.ToBetaParts
use argocd_operator.Api.ToBetaAgents
use argocd_operator.Api.ToAlphaParts
use argocd_operator.Api.ToAlphaAgents
use argocd_operator.Api.WebhookRefs.{
  convert_webhook_secrets_to_beta, convert_webhook_secrets_to_alpha,
}
use argocd_operator.Api.Sso.{convert_sso_field, has_deprecated_keycloak, move_keycloak, move_dex}
use argocd_operator.Base.{◌∙◌, string_eq, subst, arith}
use argocd_operator.Sso.{is_some}
use argocd_operator.Api.Convert.{convert_to, convert_from}
use mathlib.Core.Option.{some-injective}
use argocd_operator.Api.RoundTrip.Parts.{
  on_pointer_twice, map_back, controller_back, repo_back, server_back, notifications_back,
  application_set_back, dex_back, ignore_differences_back, argo_cd_agent_back, webhook_secrets_back,
  kustomize_versions_back, resource_health_checks_back, resource_actions_back,
  namespace_management_back,
}

-- The deprecated fields of Keycloak are not set.
pub record HasNoDeprecated (k : Kube) (s : Alpha.ArgoCdSsoSpec k) : Type 0 where
  pub image : s.image ≡ ""
  pub resources : s.resources ≡ none
  pub verify_tls : s.verify_tls ≡ none
  pub version : s.version ≡ ""

-- The fields that v1beta1 gives back: the deprecated ones of `sso`, the deprecated `dex`, and those
-- that a conversion does not copy are not among them.
pub record IsPresentable (k : Kube) (s : Alpha.ArgoCdSpec k) : Type 0 where
  pub sso : (x : Alpha.ArgoCdSsoSpec k) → s.sso ≡ some x → HasNoDeprecated k x
  pub dex : s.dex ≡ none
  pub installation_id : s.installation_id ≡ ""
  pub image_pull_policy : s.image_pull_policy ≡ k.zero_pull_policy
  pub resource_customizations : s.resource_customizations ≡ ""
  pub enable_rollouts_ui : s.server.enable_rollouts_ui ≡ false
  pub network_policy : s.network_policy ≡ record { enabled = none }

has_deprecated_keycloak-HasNoDeprecated :
    (k : Kube)
    → (s : Alpha.ArgoCdSsoSpec k) → (h : HasNoDeprecated k s) → has_deprecated_keycloak k s ≡ false
unfolding has_deprecated_keycloak is_some
has_deprecated_keycloak-HasNoDeprecated k s h =
    ground (arith, h.image, h.resources, h.verify_tls, h.version)

convert_sso_back :
    (k : Kube)
    → (s : Alpha.ArgoCdSsoSpec k) → (h : HasNoDeprecated k s)
    → ToAlphaParts.convert_sso k (ToBetaParts.convert_sso k s) ≡ s
unfolding ToAlphaParts.convert_sso ToBetaParts.convert_sso
convert_sso_back k s h i = record {
  provider = s.provider;
  dex =
      on_pointer_twice (ToBetaParts.convert_dex k) (ToAlphaParts.convert_dex k) (dex_back k) s.dex
        i;
  keycloak = s.keycloak;
  image = sym h.image i;
  resources = sym h.resources i;
  verify_tls = sym h.verify_tls i;
  version = sym h.version i;
}

move_keycloak-HasNoDeprecated :
    (k : Kube)
    → (s : Alpha.ArgoCdSsoSpec k) → (h : HasNoDeprecated k s)
    → move_keycloak k s ≡ ToBetaParts.convert_sso k s
unfolding move_keycloak
move_keycloak-HasNoDeprecated k s h = ground (arith, has_deprecated_keycloak-HasNoDeprecated k s h)

sso_back :
    (k : Kube)
    → (s : Option (Alpha.ArgoCdSsoSpec k)) → (d : Option (Alpha.ArgoCdDexSpec k))
    → (h : (x : Alpha.ArgoCdSsoSpec k) → s ≡ some x → HasNoDeprecated k x) → (e : d ≡ none)
    → on_pointer (ToAlphaParts.convert_sso k) (convert_sso_field k s d) ≡ s
unfolding convert_sso_field move_dex
sso_back k none none h e = refl
sso_back k (some s) none h e = ap some (
    ap (ToAlphaParts.convert_sso k) (move_keycloak-HasNoDeprecated k s (h s refl))
    ∙ convert_sso_back k s (h s refl))
sso_back k s (some d) h e = ground arith

-- An object of v1alpha1 that uses none of the deprecated or uncopied fields (`IsPresentable`) is
-- unchanged by the conversion to v1beta1 and back.
pub convert_from-convert_to :
    (k : Kube)
    → (s : Alpha.ArgoCd k) → (h : IsPresentable k s.spec) → convert_from k (convert_to k s) ≡ s
unfolding convert_from convert_to ToAlphaParts.convert_prometheus ToBetaParts.convert_prometheus
    ToAlphaParts.convert_grafana ToBetaParts.convert_grafana ToAlphaParts.convert_ha
    ToBetaParts.convert_ha ToAlphaParts.convert_redis ToBetaParts.convert_redis
    ToAlphaParts.convert_tls ToBetaParts.convert_tls
convert_from-convert_to k s h i = record {
  object_meta = s.object_meta;
  spec = record {
    application_set =
        on_pointer_twice (ToBetaParts.convert_application_set k)
          (ToAlphaParts.convert_application_set k) (application_set_back k) s.spec.application_set
          i;
    application_instance_label_key = s.spec.application_instance_label_key;
    installation_id = sym h.installation_id i;
    config_management_plugins = s.spec.config_management_plugins;
    controller = controller_back k s.spec.controller i;
    disable_admin = s.spec.disable_admin;
    extra_config = s.spec.extra_config;
    ga_tracking_id = s.spec.ga_tracking_id;
    ga_anonymize_users = s.spec.ga_anonymize_users;
    grafana = s.spec.grafana;
    ha = s.spec.ha;
    help_chat_url = s.spec.help_chat_url;
    help_chat_text = s.spec.help_chat_text;
    image = s.spec.image;
    image_pull_policy = sym h.image_pull_policy i;
    import = s.spec.import;
    initial_repositories = s.spec.initial_repositories;
    initial_ssh_known_hosts = s.spec.initial_ssh_known_hosts;
    kustomize_build_options = s.spec.kustomize_build_options;
    kustomize_versions =
        map_back (ToBetaParts.convert_kustomize_versions) ToAlphaParts.convert_kustomize_versions
          kustomize_versions_back s.spec.kustomize_versions i;
    oidc_config = s.spec.oidc_config;
    monitoring = s.spec.monitoring;
    network_policy = sym h.network_policy i;
    node_placement = s.spec.node_placement;
    notifications = notifications_back k s.spec.notifications i;
    prometheus = s.spec.prometheus;
    rbac = s.spec.rbac;
    redis = s.spec.redis;
    repo = repo_back k s.spec.repo i;
    repository_credentials = s.spec.repository_credentials;
    resource_customizations = sym h.resource_customizations i;
    resource_health_checks =
        map_back ToBetaParts.convert_resource_health_checks
          ToAlphaParts.convert_resource_health_checks resource_health_checks_back
          s.spec.resource_health_checks i;
    resource_ignore_differences =
        on_pointer_twice ToBetaParts.convert_resource_ignore_differences
          ToAlphaParts.convert_resource_ignore_differences ignore_differences_back
          s.spec.resource_ignore_differences i;
    resource_actions =
        map_back ToBetaParts.convert_resource_actions ToAlphaParts.convert_resource_actions
          resource_actions_back s.spec.resource_actions i;
    resource_exclusions = s.spec.resource_exclusions;
    resource_inclusions = s.spec.resource_inclusions;
    resource_tracking_method = s.spec.resource_tracking_method;
    server = server_back k s.spec.server h.enable_rollouts_ui i;
    source_namespaces = s.spec.source_namespaces;
    sso = sso_back k s.spec.sso s.spec.dex h.sso h.dex i;
    status_badge_enabled = s.spec.status_badge_enabled;
    tls = s.spec.tls;
    users_anonymous_enabled = s.spec.users_anonymous_enabled;
    version = s.spec.version;
    banner = s.spec.banner;
    dex = sym h.dex i;
    default_cluster_scoped_role_disabled = s.spec.default_cluster_scoped_role_disabled;
    aggregated_cluster_roles = s.spec.aggregated_cluster_roles;
    argo_cd_agent =
        on_pointer_twice (ToBetaAgents.convert_argo_cd_agent k)
          (ToAlphaAgents.convert_argo_cd_agent k) (argo_cd_agent_back k) s.spec.argo_cd_agent i;
    namespace_management =
        map_back ToBetaParts.convert_namespace_management ToAlphaParts.convert_namespace_management
          namespace_management_back s.spec.namespace_management i;
    webhook_secrets =
        on_pointer_twice convert_webhook_secrets_to_beta convert_webhook_secrets_to_alpha
          webhook_secrets_back s.spec.webhook_secrets i;
  };
  status = s.status;
}

convert_sso-HasNoDeprecated :
    (k : Kube)
    → (s : Option (Beta.ArgoCdSsoSpec k)) → (x : Alpha.ArgoCdSsoSpec k)
    → (e : on_pointer (ToAlphaParts.convert_sso k) s ≡ some x) → HasNoDeprecated k x
unfolding ToAlphaParts.convert_sso
convert_sso-HasNoDeprecated k none x e = ground arith
convert_sso-HasNoDeprecated k (some s) x e =
    subst (HasNoDeprecated k) (some-injective (ToAlphaParts.convert_sso k s) x e)
      record { image = refl; resources = refl; verify_tls = refl; version = refl }

-- What ConvertFrom makes of any object of v1beta1 uses none of the deprecated or uncopied fields.
convert_from-IsPresentable :
    (k : Kube) → (s : Beta.ArgoCd k) → IsPresentable k (convert_from k s).spec
unfolding convert_from ToAlphaParts.convert_server
convert_from-IsPresentable k s = record {
  sso = λ x e. convert_sso-HasNoDeprecated k s.spec.sso x e;
  dex = refl;
  installation_id = refl;
  image_pull_policy = refl;
  resource_customizations = refl;
  enable_rollouts_ui = refl;
  network_policy = refl;
}

-- The conversion of an object of v1beta1 to v1alpha1, to v1beta1 and to v1alpha1 again gives what the
-- first of the three conversions gives.
pub convert_from_stable :
    (k : Kube)
    → (s : Beta.ArgoCd k) → convert_from k (convert_to k (convert_from k s)) ≡ convert_from k s
convert_from_stable k s =
    convert_from-convert_to k (convert_from k s) (convert_from-IsPresentable k s)
