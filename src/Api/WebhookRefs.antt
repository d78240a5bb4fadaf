-- ===== src/Api/WebhookRefs.antt =====
-- The conversions of the references to webhook secrets, in api/v1alpha1/argocd_conversion.go. The two
-- versions declare the references alike, so a conversion is a function on one type; the source
-- writes it twice, once for each direction.
use argocd_operator.Api.Kube.{on_pointer}
use argocd_operator.Api.Webhooks.{
  WebhookSecretKeySelector, ArgoCdWebhookSecretsSpec, ArgoCdWebhookSecretsGithub,
  ArgoCdWebhookSecretsGitlab, ArgoCdWebhookSecretsBitbucket, ArgoCdWebhookSecretsBitbucketServer,
  ArgoCdWebhookSecretsGogs, ArgoCdWebhookSecretsAzureDevops,
}

unfoldable pub copy_webhook_ref_to_beta : WebhookSecretKeySelector → WebhookSecretKeySelector
copy_webhook_ref_to_beta s = record { name = s.name; key = s.key }

unfoldable pub copy_github_to_beta : ArgoCdWebhookSecretsGithub → ArgoCdWebhookSecretsGithub
unfolding copy_webhook_ref_to_beta
copy_github_to_beta s = record {
  webhook_secret_ref = on_pointer copy_webhook_ref_to_beta s.webhook_secret_ref;
}

unfoldable pub copy_gitlab_to_beta : ArgoCdWebhookSecretsGitlab → ArgoCdWebhookSecretsGitlab
unfolding copy_webhook_ref_to_beta
copy_gitlab_to_beta s = record {
  webhook_secret_ref = on_pointer copy_webhook_ref_to_beta s.webhook_secret_ref;
}

unfoldable pub copy_bitbucket_to_beta :
    ArgoCdWebhookSecretsBitbucket → ArgoCdWebhookSecretsBitbucket
unfolding copy_webhook_ref_to_beta
copy_bitbucket_to_beta s = record {
  webhook_uuid_secret_ref = on_pointer copy_webhook_ref_to_beta s.webhook_uuid_secret_ref;
}

unfoldable pub copy_bitbucket_server_to_beta :
    ArgoCdWebhookSecretsBitbucketServer → ArgoCdWebhookSecretsBitbucketServer
unfolding copy_webhook_ref_to_beta
copy_bitbucket_server_to_beta s = record {
  webhook_secret_ref = on_pointer copy_webhook_ref_to_beta s.webhook_secret_ref;
}

unfoldable pub copy_gogs_to_beta : ArgoCdWebhookSecretsGogs → ArgoCdWebhookSecretsGogs
unfolding copy_webhook_ref_to_beta
copy_gogs_to_beta s = record {
  webhook_secret_ref = on_pointer copy_webhook_ref_to_beta s.webhook_secret_ref;
}

unfoldable pub copy_azure_devops_to_beta :
    ArgoCdWebhookSecretsAzureDevops → ArgoCdWebhookSecretsAzureDevops
unfolding copy_webhook_ref_to_beta
copy_azure_devops_to_beta s = record {
  username_secret_ref = on_pointer copy_webhook_ref_to_beta s.username_secret_ref;
  password_secret_ref = on_pointer copy_webhook_ref_to_beta s.password_secret_ref;
}

unfoldable pub convert_webhook_secrets_to_beta : ArgoCdWebhookSecretsSpec → ArgoCdWebhookSecretsSpec
unfolding copy_github_to_beta copy_gitlab_to_beta copy_bitbucket_to_beta
    copy_bitbucket_server_to_beta copy_gogs_to_beta copy_azure_devops_to_beta
convert_webhook_secrets_to_beta s = record {
  github = on_pointer copy_github_to_beta s.github;
  gitlab = on_pointer copy_gitlab_to_beta s.gitlab;
  bitbucket = on_pointer copy_bitbucket_to_beta s.bitbucket;
  bitbucket_server = on_pointer copy_bitbucket_server_to_beta s.bitbucket_server;
  gogs = on_pointer copy_gogs_to_beta s.gogs;
  azure_devops = on_pointer copy_azure_devops_to_beta s.azure_devops;
}

unfoldable pub copy_webhook_ref_to_alpha : WebhookSecretKeySelector → WebhookSecretKeySelector
copy_webhook_ref_to_alpha s = record { name = s.name; key = s.key }

unfoldable pub copy_github_to_alpha : ArgoCdWebhookSecretsGithub → ArgoCdWebhookSecretsGithub
unfolding copy_webhook_ref_to_alpha
copy_github_to_alpha s = record {
  webhook_secret_ref = on_pointer copy_webhook_ref_to_alpha s.webhook_secret_ref;
}

unfoldable pub copy_gitlab_to_alpha : ArgoCdWebhookSecretsGitlab → ArgoCdWebhookSecretsGitlab
unfolding copy_webhook_ref_to_alpha
copy_gitlab_to_alpha s = record {
  webhook_secret_ref = on_pointer copy_webhook_ref_to_alpha s.webhook_secret_ref;
}

unfoldable pub copy_bitbucket_to_alpha :
    ArgoCdWebhookSecretsBitbucket → ArgoCdWebhookSecretsBitbucket
unfolding copy_webhook_ref_to_alpha
copy_bitbucket_to_alpha s = record {
  webhook_uuid_secret_ref = on_pointer copy_webhook_ref_to_alpha s.webhook_uuid_secret_ref;
}

unfoldable pub copy_bitbucket_server_to_alpha :
    ArgoCdWebhookSecretsBitbucketServer → ArgoCdWebhookSecretsBitbucketServer
unfolding copy_webhook_ref_to_alpha
copy_bitbucket_server_to_alpha s = record {
  webhook_secret_ref = on_pointer copy_webhook_ref_to_alpha s.webhook_secret_ref;
}

unfoldable pub copy_gogs_to_alpha : ArgoCdWebhookSecretsGogs → ArgoCdWebhookSecretsGogs
unfolding copy_webhook_ref_to_alpha
copy_gogs_to_alpha s = record {
  webhook_secret_ref = on_pointer copy_webhook_ref_to_alpha s.webhook_secret_ref;
}

unfoldable pub copy_azure_devops_to_alpha :
    ArgoCdWebhookSecretsAzureDevops → ArgoCdWebhookSecretsAzureDevops
unfolding copy_webhook_ref_to_alpha
copy_azure_devops_to_alpha s = record {
  username_secret_ref = on_pointer copy_webhook_ref_to_alpha s.username_secret_ref;
  password_secret_ref = on_pointer copy_webhook_ref_to_alpha s.password_secret_ref;
}

unfoldable pub convert_webhook_secrets_to_alpha :
    ArgoCdWebhookSecretsSpec → ArgoCdWebhookSecretsSpec
unfolding copy_github_to_alpha copy_gitlab_to_alpha copy_bitbucket_to_alpha
    copy_bitbucket_server_to_alpha copy_gogs_to_alpha copy_azure_devops_to_alpha
convert_webhook_secrets_to_alpha s = record {
  github = on_pointer copy_github_to_alpha s.github;
  gitlab = on_pointer copy_gitlab_to_alpha s.gitlab;
  bitbucket = on_pointer copy_bitbucket_to_alpha s.bitbucket;
  bitbucket_server = on_pointer copy_bitbucket_server_to_alpha s.bitbucket_server;
  gogs = on_pointer copy_gogs_to_alpha s.gogs;
  azure_devops = on_pointer copy_azure_devops_to_alpha s.azure_devops;
}
