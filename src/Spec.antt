-- ===== src/Spec.antt =====
-- The fields of an ArgoCD resource (api/v1beta1/argocd_types.go) that the single sign-on check, the
-- status computation and the local users read, and the methods IsEnabled, IsRemote and ToLower on them. A pointer is
-- an Option. A child record holds only what these components read.
use argocd_operator.Base.{String, Bool, true, false, not, ◌==◌, string_eq, Option, none, some, List}
use argocd_operator.Base.Map.{Map}
use argocd_operator.Base.Text.{to_lower}

pub record Keycloak : Type 0 where
  pub image : String
  pub version : String

pub record Dex : Type 0 where
  pub config : String
  pub open_shift_oauth : Bool

pub record Sso : Type 0 where
  pub provider : String
  pub dex : Option Dex
  pub keycloak : Option Keycloak

-- LocalUserSpec
pub record LocalUser : Type 0 where
  pub name : String
  pub enabled : Option Bool
  pub api_key : Option Bool
  pub login : Bool
  pub token_lifetime : String
  pub auto_renew_token : Option Bool

pub record ArgoCd : Type 0 where
  pub name : String
  pub namespace : String
  pub controller_enabled : Option Bool
  pub redis_enabled : Option Bool
  pub redis_remote : Option String
  pub repo_enabled : Option Bool
  pub server_enabled : Option Bool
  pub sso : Option Sso
  pub ha_enabled : Bool
  pub notifications_enabled : Bool
  pub server_route_enabled : Bool
  pub server_ingress_enabled : Bool
  pub extra_config : Map String String
  pub local_users : List LocalUser

-- `a.Enabled == nil || *a.Enabled`, the IsEnabled of the controller, Redis, repo server and server.
abbrev pub is_enabled : Option Bool → Bool
is_enabled none = true
is_enabled (some b) = b

abbrev pub is_remote : Option String → Bool
is_remote none = false
is_remote (some r) = not (r == "")

abbrev pub sso_is_enabled : Option Sso → Bool
sso_is_enabled none = false
sso_is_enabled (some s) = not (s.provider == "")

abbrev pub provider_dex : String
provider_dex = "dex"

abbrev pub provider_keycloak : String
provider_keycloak = "keycloak"

-- `cr.Spec.SSO.Provider.ToLower()`
abbrev pub lowered : Sso → String
lowered s = to_lower s.provider

unfoldable pub use_dex : ArgoCd → Bool
use_dex cr = elim cr.sso [ none ↦ false | some s ↦ lowered s == provider_dex ]
