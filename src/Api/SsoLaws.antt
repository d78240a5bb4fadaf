-- ===== src/Api/SsoLaws.antt =====
-- The field `sso` after ArgoCD.ConvertTo, in api/v1alpha1/argocd_conversion.go.
use argocd_operator.Base.{
  String, Option, some, none, [], true, false, ◌≡◌, ◌≢◌, ◌⊎◌, refl, arith, string_eq,
}
use argocd_operator.Api.Kube.{Kube, on_pointer}
use argocd_operator.Api.Alpha
use argocd_operator.Api.Beta
use argocd_operator.Api.Parts.{ArgoCdKeycloakSpec}
use argocd_operator.Api.ToBetaParts.{convert_dex, convert_sso}
use argocd_operator.Api.Sso.{
  convert_sso_field, has_deprecated_keycloak, move_keycloak, move_dex, has_deprecated_dex,
  override_keycloak, or_new, or_new_sso, set_dex,
}
use argocd_operator.Api.Convert.{convert_to}
use argocd_operator.Spec.{provider_dex}

-- The field `keycloak` of a field `sso`.
abbrev pub keycloak_of : (k : Kube) → Option (Beta.ArgoCdSsoSpec k) → Option (ArgoCdKeycloakSpec k)
keycloak_of k none = none
keycloak_of k (some b) = b.keycloak

-- The fields `provider` and `dex` of a field `sso`.
abbrev pub provider_of : (k : Kube) → Option (Beta.ArgoCdSsoSpec k) → Option String
provider_of k none = none
provider_of k (some b) = some b.provider

abbrev pub dex_of : (k : Kube) → Option (Beta.ArgoCdSsoSpec k) → Option (Beta.ArgoCdDexSpec k)
dex_of k none = none
dex_of k (some b) = b.dex

-- A Dex section of v1alpha1 in v1beta1: the fields that only v1beta1 has are empty.
abbrev pub beta_dex : (k : Kube) → Alpha.ArgoCdDexSpec k → Beta.ArgoCdDexSpec k
beta_dex k d = record {
  enable_sa_token_renewal = none;
  config = d.config;
  groups = d.groups;
  image = d.image;
  openshift_oauth = d.openshift_oauth;
  resources = d.resources;
  version = d.version;
  env = [];
  volumes = [];
  volume_mounts = [];
  annotations = d.annotations;
  labels = d.labels;
}

-- The Dex section that an object of v1alpha1 has in its field `sso`.
abbrev pub own_dex : (k : Kube) → Option (Alpha.ArgoCdSsoSpec k) → Option (Beta.ArgoCdDexSpec k)
own_dex k none = none
own_dex k (some x) = on_pointer (beta_dex k) x.dex

abbrev pub own_provider : (k : Kube) → Option (Alpha.ArgoCdSsoSpec k) → Option String
own_provider k none = none
own_provider k (some x) = some x.provider

-- The field of the converted object.
sso-convert_to :
    (k : Kube)
    → (s : Alpha.ArgoCd k) → (convert_to k s).spec.sso ≡ convert_sso_field k s.spec.sso s.spec.dex
unfolding convert_to
sso-convert_to k s = refl

move_dex_moved :
    (k : Kube)
    → (b : Option (Beta.ArgoCdSsoSpec k)) → (d : Alpha.ArgoCdDexSpec k)
    → (d.config ≢ "") ⊎ (d.openshift_oauth ≡ true)
    → (provider_of k (move_dex k (some d) b) ≡ some provider_dex)
      × (dex_of k (move_dex k (some d) b) ≡ some (beta_dex k d))
unfolding move_dex set_dex has_deprecated_dex convert_dex
move_dex_moved k b d h = ground arith

move_dex_kept :
    (k : Kube)
    → (b : Option (Beta.ArgoCdSsoSpec k)) → (d : Alpha.ArgoCdDexSpec k) → d.config ≡ ""
    → d.openshift_oauth ≡ false
    → move_dex k (some d) b ≡ b
unfolding move_dex has_deprecated_dex
move_dex_kept k b d h l = ground arith

own_fields :
    (k : Kube)
    → (x : Option (Alpha.ArgoCdSsoSpec k))
    → let b = on_pointer (move_keycloak k) x in
      (provider_of k b ≡ own_provider k x) × (dex_of k b ≡ own_dex k x)
unfolding move_keycloak convert_sso convert_dex
own_fields k none = (refl, refl)
own_fields k (some x) = (ground arith, ground arith)

-- Where the deprecated field `dex` of an object of v1alpha1 has a nonempty configuration or asks for
-- OpenShift's OAuth, the converted object names Dex as its provider and has that field, field by
-- field, as its `sso.dex`, whatever the object's own `sso` says. Where it has neither, the provider and the
-- Dex section of the converted object are those of the object's own `sso`.
pub convert_to-deprecated_dex :
    (k : Kube)
    → (s : Alpha.ArgoCd k) → (d : Alpha.ArgoCdDexSpec k) → (e : s.spec.dex ≡ some d)
    → let sso = (convert_to k s).spec.sso in
      ((d.config ≢ "") ⊎ (d.openshift_oauth ≡ true)
        → (provider_of k sso ≡ some provider_dex) × (dex_of k sso ≡ some (beta_dex k d)))
      × (d.config ≡ ""
          → d.openshift_oauth ≡ false
          → (provider_of k sso ≡ own_provider k s.spec.sso) × (dex_of k sso ≡ own_dex k s.spec.sso))
unfolding convert_sso_field
convert_to-deprecated_dex k s d e =
    let b = on_pointer (move_keycloak k) s.spec.sso in
    rw (sso-convert_to k s, e)
      (λ h. move_dex_moved k b d h, λ h l. rw (move_dex_kept k b d h l) (own_fields k s.spec.sso))

keycloak_of-move_dex :
    (k : Kube)
    → (d : Option (Alpha.ArgoCdDexSpec k)) → (b : Beta.ArgoCdSsoSpec k)
    → keycloak_of k (move_dex k d (some b)) ≡ b.keycloak
unfolding move_dex set_dex or_new_sso
keycloak_of-move_dex k none b = refl
keycloak_of-move_dex k (some d) b = ground arith

-- A deprecated field of Keycloak is set.
abbrev pub HasDeprecated : (k : Kube) → Alpha.ArgoCdSsoSpec k → Type 0
HasDeprecated k x = (x.image ≢ "") ⊎ (x.version ≢ "") ⊎ (x.verify_tls ≢ none) ⊎ (x.resources ≢ none)

has_deprecated_keycloak_lem :
    (k : Kube)
    → (x : Alpha.ArgoCdSsoSpec k) → HasDeprecated k x
    → has_deprecated_keycloak k x ≡ true
unfolding has_deprecated_keycloak
has_deprecated_keycloak_lem k x h = ground arith

has_deprecated_keycloak-none :
    (k : Kube)
    → (x : Alpha.ArgoCdSsoSpec k) → (HasDeprecated k x → ⊥)
    → has_deprecated_keycloak k x ≡ false
unfolding has_deprecated_keycloak
has_deprecated_keycloak-none k x h = ground arith

keycloak_of-convert_sso_field :
    (k : Kube)
    → (x : Alpha.ArgoCdSsoSpec k) → (d : Option (Alpha.ArgoCdDexSpec k))
    → keycloak_of k (convert_sso_field k (some x) d) ≡ (move_keycloak k x).keycloak
unfolding convert_sso_field
keycloak_of-convert_sso_field k x d = keycloak_of-move_dex k d (move_keycloak k x)

-- The field `keycloak` with the four deprecated fields of `sso` in place of its own.
abbrev pub overridden : (k : Kube) → Alpha.ArgoCdSsoSpec k → ArgoCdKeycloakSpec k
overridden k x = record {
  image = x.image;
  resources = x.resources;
  root_ca = elim x.keycloak [ none ↦ "" | some y ↦ y.root_ca ];
  version = x.version;
  verify_tls = x.verify_tls;
  host = elim x.keycloak [ none ↦ "" | some y ↦ y.host ];
}

keycloak-move_keycloak :
    (k : Kube)
    → (x : Alpha.ArgoCdSsoSpec k)
    → (HasDeprecated k x → (move_keycloak k x).keycloak ≡ some (overridden k x))
      × ((HasDeprecated k x → ⊥) → (move_keycloak k x).keycloak ≡ x.keycloak)
unfolding move_keycloak override_keycloak convert_sso or_new
keycloak-move_keycloak k x = (
  λ h. ground (arith, has_deprecated_keycloak_lem k x h),
  λ h. ground (arith, has_deprecated_keycloak-none k x h),
)

-- Where a deprecated field of Keycloak (image, version, verifyTLS or resources) is set in the `sso` of
-- an object of v1alpha1, the converted object's `sso.keycloak` is set and has all four of them, the
-- unset ones unset too, with the root CA and the host of the object's own `sso.keycloak`, whatever its
-- `dex` says. Where none is set, `sso.keycloak` is the object's own.
pub convert_to-deprecated_keycloak :
    (k : Kube)
    → (s : Alpha.ArgoCd k) → (x : Alpha.ArgoCdSsoSpec k) → (e : s.spec.sso ≡ some x)
    → let keycloak = keycloak_of k (convert_to k s).spec.sso in
      (HasDeprecated k x → keycloak ≡ some (overridden k x))
      × ((HasDeprecated k x → ⊥) → keycloak ≡ x.keycloak)
convert_to-deprecated_keycloak k s x e =
    rw (sso-convert_to k s, e, keycloak_of-convert_sso_field k x s.spec.dex)
      (keycloak-move_keycloak k x)
