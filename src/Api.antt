-- ===== src/Api.antt =====
-- api/v1alpha1 and api/v1beta1: the two versions of the ArgoCD resource, and the conversion webhook
-- between them in api/v1alpha1/argocd_conversion.go.
pub mod Kube
pub mod Parts
pub mod Agents
pub mod Webhooks
pub mod Alpha
pub mod Beta
pub mod ToBetaParts
pub mod ToBetaAgents
pub mod ToAlphaParts
pub mod ToAlphaAgents
pub mod WebhookRefs
pub mod Sso
pub mod SsoLaws
pub mod Convert
pub mod RoundTrip
