-- ===== src/Sso.antt =====
-- controllers/argocd/sso.go: reconcileSSO, with the five cases of the source in its order. The state
-- is `argocdStatus.SSO`. reconcileDexResources (controllers/argocd/dex.go), which writes the Dex
-- objects and no status, is the argument `dex_resources`: the error that it returns, or none.
pub mod Laws
use argocd_operator.Base.{
  String, Bool, true, false, not, ◌&&◌, ◌||◌, ◌==◌, string_eq, if◌then◌else◌, Option, none, some,
  Run, done, failed, panicked, ◌<>◌, Outcome,
}
use argocd_operator.Spec.{
  ArgoCd, Sso, Dex, Keycloak, provider_dex, provider_keycloak, lowered, use_dex,
}

abbrev pub illegal : String → String
illegal message = "illegal SSO configuration: " <> message

abbrev pub dex_config_missing : String
dex_config_missing =
    illegal "must supply valid dex configuration when requested SSO provider is dex"

abbrev pub keycloak_with_dex : String
keycloak_with_dex =
    illegal
      "keycloak configuration is specified even though Dex is enabled. Keycloak support has been deprecated and is no longer available."

abbrev pub keycloak_removed : String
keycloak_removed =
    "keycloak is set as SSO provider, but keycloak support has been deprecated and is no longer available"

abbrev pub provider_missing : String
provider_missing = illegal "Cannot specify SSO provider spec without specifying SSO provider type"

abbrev pub provider_unsupported : String
provider_unsupported = illegal "Unsupported SSO provider type. Supported provider is dex"

abbrev pub is_some {ℓ} : {A : Type ℓ} → Option A → Bool
is_some none = false
is_some (some _) = true

-- `Dex == nil || !OpenShiftOAuth && Config == ""`
abbrev pub dex_unconfigured : Option Dex → Bool
dex_unconfigured none = true
dex_unconfigured (some d) = not d.open_shift_oauth && d.config == ""

-- The end of the function: the resources of the provider in use.
reconcile_provider : (ArgoCd → Outcome) → ArgoCd → Sso → String → Run String
reconcile_provider dex_resources cr sso status =
    if lowered sso == provider_keycloak
    then ("Unknown", done)
    else (if use_dex cr
        then elim (dex_resources cr) [
          | done ↦ (status, done)
          | failed e ↦ ("Failed", failed e)
          | panicked ↦ (status, panicked)
        ]
        else (status, done))

-- Cases 3, 4 and 5, which a configuration reaches that passes case 2.
check_provider : (ArgoCd → Outcome) → ArgoCd → Sso → String → Run String
unfolding reconcile_provider
check_provider dex_resources cr sso status =
    if lowered sso == provider_keycloak
    then ("Failed", failed keycloak_removed)
    else (if lowered sso == "" && is_some sso.dex
        then ("Failed", failed provider_missing)
        else (if not (lowered sso == provider_dex)
            then ("Failed", failed provider_unsupported)
            else reconcile_provider dex_resources cr sso status))

check_dex : (ArgoCd → Outcome) → ArgoCd → Sso → String → Run String
unfolding check_provider
check_dex dex_resources cr sso status =
    if lowered sso == provider_dex && dex_unconfigured sso.dex
    then ("Failed", failed dex_config_missing)
    else (if lowered sso == provider_dex && is_some sso.keycloak
        then ("Failed", failed keycloak_with_dex)
        else check_provider dex_resources cr sso status)

unfoldable pub reconcile_sso : (ArgoCd → Outcome) → ArgoCd → String → Run String
unfolding check_dex
reconcile_sso dex_resources cr status = elim cr.sso [
  | none ↦ (status, done)
  | some sso ↦ check_dex dex_resources cr sso status
]
