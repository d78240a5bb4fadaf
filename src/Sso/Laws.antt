-- ===== src/Sso/Laws.antt =====
-- When a single sign-on configuration is accepted, and what the status says then.
use argocd_operator.Base.{
  String, true, ◌≡◌, ◌≢◌, ◌↔◌, ◌⊎◌, string_eq, Option, none, some, Outcome, done, failed, panicked,
  arith,
}
use text.Mathlib.TextEquality.{eq_iff}
use argocd_operator.Spec.{ArgoCd, Sso, Dex, provider_dex, lowered, use_dex}
use argocd_operator.Sso.{reconcile_sso}

abbrev pub IsConfigured : Option Dex → Type 0
IsConfigured none = ⊥
IsConfigured (some d) = (d.open_shift_oauth ≡ true) ⊎ (d.config ≢ "")

-- The legal configurations: none, or Dex, up to case, with a usable Dex section and no Keycloak
-- section.
pub record IsLegalDex (sso : Sso) : Type 0 where
  pub provider : lowered sso ≡ provider_dex
  pub configured : IsConfigured sso.dex
  pub no_keycloak : sso.keycloak ≡ none

abbrev pub IsLegal : Option Sso → Type 0
IsLegal none = Unit {0}
IsLegal (some sso) = IsLegalDex sso

module _ (dex_resources : ArgoCd → Outcome) where
  -- With Dex resources that reconcile, a call returns no error exactly when the configuration is
  -- legal.
  pub reconcile_sso-done_iff :
      (cr : ArgoCd) (status : String)
      → dex_resources cr ≡ done
      → ((reconcile_sso dex_resources cr status).1 ≡ done) ↔ IsLegal cr.sso
  unfolding reconcile_sso use_dex
  reconcile_sso-done_iff cr status h = ground (arith, eq_iff "dex" "keycloak", eq_iff "dex" "")

  -- A call that returns an error sets the status to Failed. One that returns none, and one in which the
  -- Dex resources panic, leaves the status as it was.
  pub reconcile_sso_outcome :
      (cr : ArgoCd) (status : String)
      → (reconcile_sso dex_resources cr status).0 ≡ elim (reconcile_sso dex_resources cr status).1 [
        | failed e ↦ "Failed"
        | done ↦ status
        | panicked ↦ status
      ]
  unfolding reconcile_sso use_dex
  reconcile_sso_outcome cr status = ground (arith, eq_iff "dex" "keycloak")

  -- For an illegal configuration the status and the error are the same whatever the Dex resources do.
  pub reconcile_sso_illegal :
      (other : ArgoCd → Outcome) (cr : ArgoCd) (status : String)
      → (IsLegal cr.sso → ⊥)
      → reconcile_sso dex_resources cr status ≡ reconcile_sso other cr status
  unfolding reconcile_sso use_dex
  reconcile_sso_illegal other cr status h = ground (arith, eq_iff "dex" "keycloak", eq_iff "dex" "")
