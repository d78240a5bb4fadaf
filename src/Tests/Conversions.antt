-- ===== src/Tests/Conversions.antt =====
-- Conversions of the objects of Objects.
use argocd_operator.Base.{
  ◌≡◌, ◌≢◌, ◌⊎◌, true, false, refl, true, Option, none, some, string_eq, subst,
}
use mathlib.Core.Option.{some-injective}
use argocd_operator.Api.Beta
use argocd_operator.Api.Convert.{convert_to, convert_from}
use argocd_operator.Api.RoundTrip.{
  HasNoDeprecated, IsPresentable, convert_from-convert_to, convert_from_stable,
}
use argocd_operator.Api.SsoLaws.{
  keycloak_of, provider_of, dex_of, beta_dex, overridden, HasDeprecated, convert_to-deprecated_dex,
  convert_to-deprecated_keycloak,
}
use argocd_operator.Spec.{provider_dex}
use argocd_operator.Tests.Objects.{kube, alpha, beta, dex, keycloak, plain}

plain-HasNoDeprecated : HasNoDeprecated kube plain
plain-HasNoDeprecated = record { image = refl; resources = refl; verify_tls = refl; version = refl }

plain-IsPresentable : IsPresentable kube (alpha (some plain) none).spec
plain-IsPresentable = record {
  sso = λ x e. subst (HasNoDeprecated kube) (some-injective plain x e) plain-HasNoDeprecated;
  dex = refl;
  installation_id = refl;
  image_pull_policy = refl;
  resource_customizations = refl;
  enable_rollouts_ui = refl;
  network_policy = refl;
}

convert_from-convert_to_example :
    convert_from kube (convert_to kube (alpha (some plain) none)) ≡ alpha (some plain) none
convert_from-convert_to_example =
    convert_from-convert_to kube (alpha (some plain) none) plain-IsPresentable

convert_from_stable_example :
    convert_from kube (convert_to kube (convert_from kube beta)) ≡ convert_from kube beta
convert_from_stable_example = convert_from_stable kube beta

abbrev converted : Option (Beta.ArgoCdSsoSpec kube)
converted = (convert_to kube (alpha (some keycloak) (some dex))).spec.sso

convert_to-deprecated_dex_example :
    ((dex.config ≢ "") ⊎ (dex.openshift_oauth ≡ true)
      → (provider_of kube converted ≡ some provider_dex)
        × (dex_of kube converted ≡ some (beta_dex kube dex)))
    × (dex.config ≡ ""
        → dex.openshift_oauth ≡ false
        → (provider_of kube converted ≡ some "keycloak") × (dex_of kube converted ≡ none))
convert_to-deprecated_dex_example =
    convert_to-deprecated_dex kube (alpha (some keycloak) (some dex)) dex refl

convert_to-deprecated_keycloak_example :
    (HasDeprecated kube keycloak → keycloak_of kube converted ≡ some (overridden kube keycloak))
    × ((HasDeprecated kube keycloak → ⊥) → keycloak_of kube converted ≡ none)
convert_to-deprecated_keycloak_example =
    convert_to-deprecated_keycloak kube (alpha (some keycloak) (some dex)) keycloak refl
