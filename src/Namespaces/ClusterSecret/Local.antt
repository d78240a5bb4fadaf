-- ===== src/Namespaces/ClusterSecret/Local.antt =====
-- The local cluster secret among those that the API server holds, and how a write changes it.
use argocd_operator.Base.{
  String, Bool, true, false, ◌==◌, contains, string_eq, ◌≡◌, ◌≢◌, refl, sym, ap, ◌∙◌, none, some,
  List, [], ◌∷◌, listed, done, arith, ◌⊎◌, inl,
}
use argocd_operator.Base.Map.{Map, lookup, insert, lookup-insert}
use argocd_operator.Base.Commas.{split, join, none_has_comma, split-join}
use argocd_operator.LocalUsers.Cluster.{Secret, value}
use argocd_operator.Namespaces.{
  Instance, Error, ended, Cluster, IsLawful, InNamespace, replace, Setup,
}
use argocd_operator.Namespaces.ClusterSecret.{
  default_server, without_namespace, local_secret, new_cluster_secret, with_data,
}
use argocd_operator.Namespaces.ClusterSecret.Laws.{split-without_namespace}

-- The secret's value splits into all of the names.
abbrev pub NamesAll : List String → Secret → Type 0
NamesAll managed x =
    (n : String)
    → contains managed n ≡ true
    → contains (split (value "namespaces" x.data_map)) n ≡ true

-- The secret does not name the namespace.
abbrev pub NamesNot : String → Secret → Type 0
NamesNot source x = elim (lookup "namespaces" x.data_map) [
  | none ↦ Unit
  | some v ↦ contains (split v) source ≡ false
]

-- There is a local secret among these, and it is P.
abbrev pub HasLocal : (Secret → Type 0) → List Secret → Type 0
HasLocal P xs = elim (local_secret xs) [ none ↦ ⊥ | some x ↦ P x ]

-- The local secret among these, if there is one, is P.
abbrev pub AnyLocal : (Secret → Type 0) → List Secret → Type 0
AnyLocal P xs = elim (local_secret xs) [ none ↦ Unit | some x ↦ P x ]

abbrev pub is_local : Secret → Bool
is_local x = value "server" x.data_map == default_server

pub local_secret-is_local :
    (xs : List Secret) (y : Secret) → local_secret xs ≡ some y → is_local y ≡ true
unfolding local_secret
local_secret-is_local [] y h = absurd (ground arith)
local_secret-is_local (x ∷ xs) y h = ground (arith, local_secret-is_local xs y)

pub local_secret-InNamespace :
    (namespace : String) (xs : List Secret) (y : Secret)
    → InNamespace namespace xs
    → local_secret xs ≡ some y
    → y.namespace ≡ namespace
unfolding local_secret
local_secret-InNamespace namespace [] y h k = absurd (ground arith)
local_secret-InNamespace namespace (x ∷ xs) y h k =
    ground (arith, local_secret-InNamespace namespace xs y)

pub local_secret-replace-none :
    (xs : List Secret) (x : Secret)
    → local_secret xs ≡ none
    → is_local x ≡ true
    → (local_secret (replace x xs) ≡ none) ⊎ (local_secret (replace x xs) ≡ some x)
unfolding local_secret
local_secret-replace-none [] x h k = inl refl
local_secret-replace-none (z ∷ zs) x h k = ground (arith, local_secret-replace-none zs x)

pub local_secret-replace :
    (xs : List Secret) (x y : Secret)
    → local_secret xs ≡ some y
    → x.name ≡ y.name
    → is_local x ≡ true
    → local_secret (replace x xs) ≡ some x
unfolding local_secret
local_secret-replace [] x y h k l = absurd (ground arith)
local_secret-replace (z ∷ zs) x y h k l =
    ground (arith, local_secret-replace zs x y, local_secret-replace-none zs x)

pub contains-split-join :
    (xs : List String) (n : String)
    → none_has_comma xs ≡ true
    → contains xs n ≡ true
    → contains (split (join "," xs)) n ≡ true
contains-split-join [] n h k = absurd (ground arith)
contains-split-join (x ∷ xs) n h k = ap (λ ys. contains ys n) (split-join x xs h) ∙ k

pub server-insert :
    (m : Map String String) (v : String)
    → value "server" (insert "namespaces" v m) ≡ value "server" m
unfolding string_eq
server-insert m v = rw (value, lookup-insert "server" "namespaces" v m) refl

pub namespaces-insert :
    (m : Map String String) (v : String) → lookup "namespaces" (insert "namespaces" v m) ≡ some v
unfolding string_eq
namespaces-insert m v = rw (lookup-insert "namespaces" "namespaces" v m) refl

pub local_secret-first :
    (y : Secret) (xs : List Secret)
    → is_local y ≡ true
    → local_secret xs ≡ none
    → local_secret (y ∷ xs) ≡ some y
unfolding local_secret
local_secret-first y xs h k = ground arith

pub new_cluster_secret-is_local :
    (u : Setup) (cr : Instance) (managed : List String)
    → is_local (new_cluster_secret u cr managed) ≡ true
unfolding new_cluster_secret lookup string_eq
new_cluster_secret-is_local u cr managed = refl

pub new_cluster_secret-namespace :
    (u : Setup) (cr : Instance) (managed : List String)
    → (new_cluster_secret u cr managed).namespace ≡ cr.namespace
unfolding new_cluster_secret
new_cluster_secret-namespace u cr managed = refl

pub new_cluster_secret-value :
    (u : Setup) (cr : Instance) (managed : List String)
    → value "namespaces" (new_cluster_secret u cr managed).data_map ≡ join "," managed
unfolding new_cluster_secret lookup string_eq
new_cluster_secret-value u cr managed = refl

pub AnyLocal-some :
    (P : Secret → Type 0) (xs : List Secret) (x : Secret)
    → local_secret xs ≡ some x
    → P x
    → AnyLocal P xs
AnyLocal-some P xs x h p = rw (AnyLocal, h) p

pub AnyLocal-none :
    (P : Secret → Type 0) (xs : List Secret) → local_secret xs ≡ none → AnyLocal P xs
AnyLocal-none P xs h = rw (AnyLocal, h) tt

pub HasLocal-some :
    (P : Secret → Type 0) (xs : List Secret) (x : Secret)
    → local_secret xs ≡ some x
    → P x
    → HasLocal P xs
HasLocal-some P xs x h p = rw (HasLocal, h) p

pub NamesNot-some :
    (source : String) (x : Secret) (v : String)
    → lookup "namespaces" x.data_map ≡ some v
    → contains (split v) source ≡ false
    → NamesNot source x
NamesNot-some source x v h p = rw (NamesNot, h) p

pub NamesNot-none :
    (source : String) (x : Secret) → lookup "namespaces" x.data_map ≡ none → NamesNot source x
NamesNot-none source x h = rw (NamesNot, h) tt

-- A value without the namespace does not name it.
pub source-without_namespace :
    (source old : String)
    → source ≢ ""
    → contains (split (without_namespace source old)) source ≡ false
source-without_namespace source old h = ground (arith, split-without_namespace source old source h)

module _ (c : Cluster) (l : IsLawful c) where
  -- An update of the local secret that succeeds leaves the new one as the local one.
  pub local_secret-updated :
      (s : c.State) (namespace : String) (xs : List Secret) (y : Secret) (v : String)
      → c.cluster_secrets s namespace ≡ listed xs
      → local_secret xs ≡ some y
      → (c.update_secret s (with_data (insert "namespaces" v y.data_map) y)).1 ≡ none
      → local_secret (
          c.stored (c.update_secret s (with_data (insert "namespaces" v y.data_map) y)).0 namespace)
        ≡ some (with_data (insert "namespaces" v y.data_map) y)
  local_secret-updated s namespace xs y v h k w =
      let x = with_data (insert "namespaces" v y.data_map) y in
      let here = local_secret-InNamespace namespace xs y (l.secrets-listed s namespace xs h).1 k in
      ap (λ n. local_secret (c.stored (c.update_secret s x).0 n)) (sym here)
      ∙ ap local_secret (l.secret-updated s x w)
      ∙ ap (λ n. local_secret (replace x (c.stored s n))) here
      ∙ ap (λ zs. local_secret (replace x zs)) (l.secrets-listed s namespace xs h).0
      ∙ local_secret-replace xs x y k refl (
          ap (λ t. t == default_server) (server-insert y.data_map v) ∙ local_secret-is_local xs y k)

  pub ended-done : (e : Error) → ended e ≡ done → e ≡ none
  ended-done none h = refl
  ended-done (some e) h = absurd (ground arith)
