-- ===== src/Api/Convert.antt =====
-- ArgoCD.ConvertTo and ArgoCD.ConvertFrom of api/v1alpha1/argocd_conversion.go. The destination is a
-- new object, as the conversion webhook gives them: a field that is not assigned has its zero value.
-- Where Keycloak's deprecated fields are moved, the source writes through the pointer it shares with
-- the object that it converts; the object's own later value is not modelled.
use argocd_operator.Base.{[], none, false, map}
use argocd_operator.Api.Kube.{Kube, on_pointer}
use argocd_operator.Api.Alpha
use argocd_operator.Api.Beta
use argocd_operator.Api.Sso.{convert_sso_field}
use argocd_operator.Api.WebhookRefs.{
  convert_webhook_secrets_to_beta, convert_webhook_secrets_to_alpha,
}
use argocd_operator.Api.ToBetaParts
use argocd_operator.Api.ToBetaAgents
use argocd_operator.Api.ToAlphaParts
use argocd_operator.Api.ToAlphaAgents

unfoldable pub convert_to : (k : Kube) → Alpha.ArgoCd k → Beta.ArgoCd k
convert_to k s = record {
  object_meta = s.object_meta;
  spec = record {
    application_set = on_pointer (ToBetaParts.convert_application_set k) s.spec.application_set;
    application_instance_label_key = s.spec.application_instance_label_key;
    installation_id = "";
    config_management_plugins = s.spec.config_management_plugins;
    controller = ToBetaParts.convert_controller k s.spec.controller;
    disable_admin = s.spec.disable_admin;
    extra_config = s.spec.extra_config;
    ga_tracking_id = s.spec.ga_tracking_id;
    ga_anonymize_users = s.spec.ga_anonymize_users;
    grafana = ToBetaParts.convert_grafana k s.spec.grafana;
    ha = ToBetaParts.convert_ha k s.spec.ha;
    help_chat_url = s.spec.help_chat_url;
    help_chat_text = s.spec.help_chat_text;
    image = s.spec.image;
    image_updater = record { enabled = false; env = []; resources = none };
    image_pull_policy = k.zero_pull_policy;
    import = s.spec.import;
    initial_repositories = s.spec.initial_repositories;
    initial_ssh_known_hosts = s.spec.initial_ssh_known_hosts;
    kustomize_build_options = s.spec.kustomize_build_options;
    kustomize_versions = map ToBetaParts.convert_kustomize_versions s.spec.kustomize_versions;
    local_users = [];
    oidc_config = s.spec.oidc_config;
    monitoring = s.spec.monitoring;
    network_policy = s.spec.network_policy;
    node_placement = s.spec.node_placement;
    notifications = ToBetaParts.convert_notifications k s.spec.notifications;
    prometheus = ToBetaParts.convert_prometheus k s.spec.prometheus;
    rbac = s.spec.rbac;
    redis = ToBetaParts.convert_redis k s.spec.redis;
    repo = ToBetaParts.convert_repo k s.spec.repo;
    repository_credentials = s.spec.repository_credentials;
    resource_health_checks =
        map ToBetaParts.convert_resource_health_checks s.spec.resource_health_checks;
    resource_ignore_differences =
        on_pointer ToBetaParts.convert_resource_ignore_differences
          s.spec.resource_ignore_differences;
    resource_actions = map ToBetaParts.convert_resource_actions s.spec.resource_actions;
    resource_exclusions = s.spec.resource_exclusions;
    resource_inclusions = s.spec.resource_inclusions;
    resource_tracking_method = s.spec.resource_tracking_method;
    server = ToBetaParts.convert_server k s.spec.server;
    source_namespaces = s.spec.source_namespaces;
    sso = convert_sso_field k s.spec.sso s.spec.dex;
    status_badge_enabled = s.spec.status_badge_enabled;
    tls = ToBetaParts.convert_tls s.spec.tls;
    users_anonymous_enabled = s.spec.users_anonymous_enabled;
    version = s.spec.version;
    cluster_domain = "";
    banner = s.spec.banner;
    default_cluster_scoped_role_disabled = s.spec.default_cluster_scoped_role_disabled;
    aggregated_cluster_roles = s.spec.aggregated_cluster_roles;
    cmd_params = [];
    argo_cd_agent = on_pointer (ToBetaAgents.convert_argo_cd_agent k) s.spec.argo_cd_agent;
    namespace_management = map ToBetaParts.convert_namespace_management s.spec.namespace_management;
    webhook_secrets = on_pointer convert_webhook_secrets_to_beta s.spec.webhook_secrets;
    web_terminal_enabled = none;
  };
  status = s.status;
}

unfoldable pub convert_from : (k : Kube) → Beta.ArgoCd k → Alpha.ArgoCd k
convert_from k s = record {
  object_meta = s.object_meta;
  spec = record {
    application_set = on_pointer (ToAlphaParts.convert_application_set k) s.spec.application_set;
    application_instance_label_key = s.spec.application_instance_label_key;
    installation_id = "";
    config_management_plugins = s.spec.config_management_plugins;
    controller = ToAlphaParts.convert_controller k s.spec.controller;
    disable_admin = s.spec.disable_admin;
    extra_config = s.spec.extra_config;
    ga_tracking_id = s.spec.ga_tracking_id;
    ga_anonymize_users = s.spec.ga_anonymize_users;
    grafana = ToAlphaParts.convert_grafana k s.spec.grafana;
    ha = ToAlphaParts.convert_ha k s.spec.ha;
    help_chat_url = s.spec.help_chat_url;
    help_chat_text = s.spec.help_chat_text;
    image = s.spec.image;
    image_pull_policy = k.zero_pull_policy;
    import = s.spec.import;
    initial_repositories = s.spec.initial_repositories;
    initial_ssh_known_hosts = s.spec.initial_ssh_known_hosts;
    kustomize_build_options = s.spec.kustomize_build_options;
    kustomize_versions = map ToAlphaParts.convert_kustomize_versions s.spec.kustomize_versions;
    oidc_config = s.spec.oidc_config;
    monitoring = s.spec.monitoring;
    network_policy = record { enabled = none };
    node_placement = s.spec.node_placement;
    notifications = ToAlphaParts.convert_notifications k s.spec.notifications;
    prometheus = ToAlphaParts.convert_prometheus k s.spec.prometheus;
    rbac = s.spec.rbac;
    redis = ToAlphaParts.convert_redis k s.spec.redis;
    repo = ToAlphaParts.convert_repo k s.spec.repo;
    repository_credentials = s.spec.repository_credentials;
    resource_customizations = "";
    resource_health_checks =
        map ToAlphaParts.convert_resource_health_checks s.spec.resource_health_checks;
    resource_ignore_differences =
        on_pointer ToAlphaParts.convert_resource_ignore_differences
          s.spec.resource_ignore_differences;
    resource_actions = map ToAlphaParts.convert_resource_actions s.spec.resource_actions;
    resource_exclusions = s.spec.resource_exclusions;
    resource_inclusions = s.spec.resource_inclusions;
    resource_tracking_method = s.spec.resource_tracking_method;
    server = ToAlphaParts.convert_server k s.spec.server;
    source_namespaces = s.spec.source_namespaces;
    sso = on_pointer (ToAlphaParts.convert_sso k) s.spec.sso;
    status_badge_enabled = s.spec.status_badge_enabled;
    tls = ToAlphaParts.convert_tls s.spec.tls;
    users_anonymous_enabled = s.spec.users_anonymous_enabled;
    version = s.spec.version;
    banner = s.spec.banner;
    dex = none;
    default_cluster_scoped_role_disabled = s.spec.default_cluster_scoped_role_disabled;
    aggregated_cluster_roles = s.spec.aggregated_cluster_roles;
    argo_cd_agent = on_pointer (ToAlphaAgents.convert_argo_cd_agent k) s.spec.argo_cd_agent;
    namespace_management =
        map ToAlphaParts.convert_namespace_management s.spec.namespace_management;
    webhook_secrets = on_pointer convert_webhook_secrets_to_alpha s.spec.webhook_secrets;
  };
  status = s.status;
}
