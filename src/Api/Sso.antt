-- ===== src/Api/Sso.antt =====
-- ArgoCD.ConvertTo of api/v1alpha1/argocd_conversion.go: the field `sso`, in which the deprecated fields
-- of v1alpha1 take part. A struct in which one of the tested fields is set differs from the empty
-- struct, so the comparison with that one, which the source makes first, follows from the tests.
use argocd_operator.Base.{Option, Bool, none, some, not, ◌||◌, if◌then◌else◌, ◌==◌, string_eq}
use argocd_operator.Api.Kube.{Kube, on_pointer}
use argocd_operator.Api.Parts.{ArgoCdKeycloakSpec}
use argocd_operator.Api.Alpha
use argocd_operator.Api.Beta
use argocd_operator.Api.ToBetaParts.{convert_dex, convert_sso}
use argocd_operator.Sso.{is_some}
use argocd_operator.Spec.{provider_dex}

-- Whether a deprecated field of Keycloak is set.
unfoldable pub has_deprecated_keycloak : (k : Kube) → Alpha.ArgoCdSsoSpec k → Bool
has_deprecated_keycloak k s =
    not (s.image == "") || not (s.version == "") || is_some s.verify_tls || is_some s.resources

abbrev pub new_keycloak : (k : Kube) → ArgoCdKeycloakSpec k
new_keycloak k = record {
  image = "";
  resources = none;
  root_ca = "";
  version = "";
  verify_tls = none;
  host = "";
}

unfoldable pub or_new : (k : Kube) → Option (ArgoCdKeycloakSpec k) → ArgoCdKeycloakSpec k
or_new k none = new_keycloak k
or_new k (some x) = x

unfoldable pub override_keycloak :
    (k : Kube) → Alpha.ArgoCdSsoSpec k → ArgoCdKeycloakSpec k → ArgoCdKeycloakSpec k
override_keycloak k s x = record {
  image = s.image;
  resources = s.resources;
  root_ca = x.root_ca;
  version = s.version;
  verify_tls = s.verify_tls;
  host = x.host;
}

-- The field `sso` of v1alpha1, with its deprecated fields moved to `keycloak`.
unfoldable pub move_keycloak : (k : Kube) → Alpha.ArgoCdSsoSpec k → Beta.ArgoCdSsoSpec k
move_keycloak k s =
    let b = convert_sso k s in
    if has_deprecated_keycloak k s
    then record {
      provider = b.provider;
      dex = b.dex;
      keycloak = some (override_keycloak k s (or_new k b.keycloak));
    }
    else b

-- Whether the deprecated field `dex` is configured.
unfoldable pub has_deprecated_dex : (k : Kube) → Alpha.ArgoCdDexSpec k → Bool
has_deprecated_dex k d = not (d.config == "") || d.openshift_oauth

abbrev pub new_sso : (k : Kube) → Beta.ArgoCdSsoSpec k
new_sso k = record { provider = ""; dex = none; keycloak = none }

unfoldable pub or_new_sso : (k : Kube) → Option (Beta.ArgoCdSsoSpec k) → Beta.ArgoCdSsoSpec k
or_new_sso k none = new_sso k
or_new_sso k (some x) = x

unfoldable pub set_dex :
    (k : Kube) → Alpha.ArgoCdDexSpec k → Beta.ArgoCdSsoSpec k → Beta.ArgoCdSsoSpec k
set_dex k d b = record {
  provider = provider_dex;
  dex = some (convert_dex k d);
  keycloak = b.keycloak;
}

-- The deprecated field `dex` moved to the field `sso` of v1beta1.
unfoldable pub move_dex :
    (k : Kube)
    → Option (Alpha.ArgoCdDexSpec k)
    → Option (Beta.ArgoCdSsoSpec k)
    → Option (Beta.ArgoCdSsoSpec k)
move_dex k none b = b
move_dex k (some d) b = if has_deprecated_dex k d then some (set_dex k d (or_new_sso k b)) else b

unfoldable pub convert_sso_field :
    (k : Kube)
    → Option (Alpha.ArgoCdSsoSpec k)
    → Option (Alpha.ArgoCdDexSpec k)
    → Option (Beta.ArgoCdSsoSpec k)
convert_sso_field k s d = move_dex k d (on_pointer (move_keycloak k) s)
