-- ===== src/Api/Webhooks.antt =====
-- The references to webhook secrets, which both versions declare alike.
use argocd_operator.Base.{String, Option}

pub record WebhookSecretKeySelector : Type 0 where
  pub name : String
  pub key : String

pub record ArgoCdWebhookSecretsGithub : Type 0 where
  pub webhook_secret_ref : Option WebhookSecretKeySelector

pub record ArgoCdWebhookSecretsGitlab : Type 0 where
  pub webhook_secret_ref : Option WebhookSecretKeySelector

pub record ArgoCdWebhookSecretsBitbucket : Type 0 where
  pub webhook_uuid_secret_ref : Option WebhookSecretKeySelector

pub record ArgoCdWebhookSecretsBitbucketServer : Type 0 where
  pub webhook_secret_ref : Option WebhookSecretKeySelector

pub record ArgoCdWebhookSecretsGogs : Type 0 where
  pub webhook_secret_ref : Option WebhookSecretKeySelector

pub record ArgoCdWebhookSecretsAzureDevops : Type 0 where
  pub username_secret_ref : Option WebhookSecretKeySelector
  pub password_secret_ref : Option WebhookSecretKeySelector

pub record ArgoCdWebhookSecretsSpec : Type 0 where
  pub github : Option ArgoCdWebhookSecretsGithub
  pub gitlab : Option ArgoCdWebhookSecretsGitlab
  pub bitbucket : Option ArgoCdWebhookSecretsBitbucket
  pub bitbucket_server : Option ArgoCdWebhookSecretsBitbucketServer
  pub gogs : Option ArgoCdWebhookSecretsGogs
  pub azure_devops : Option ArgoCdWebhookSecretsAzureDevops
