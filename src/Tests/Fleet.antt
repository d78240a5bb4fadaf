-- ===== src/Tests/Fleet.antt =====
-- A cluster in memory that keeps its cluster secrets and one ArgoCD resource and never refuses a
-- request, and the theorems on the managed namespaces and the cluster secret there.
use argocd_operator.Base.{
  ℕ_eq, subst, String, ◌≡◌, ◌≢◌, refl, ap, inr, ◌∙◌, Bool, true, false, ◌&&◌, ◌||◌, ◌==◌, contains,
  string_eq, if◌then◌else◌, none, some, List, [], ◌∷◌, found, listed, done, arith,
}
use argocd_operator.Base.Map.{Map, lookup}
use argocd_operator.Base.Commas.{split, has_comma, none_has_comma}
use argocd_operator.Api.Parts.{ManagedNamespaces}
use argocd_operator.LocalUsers.Cluster.{Secret}
use argocd_operator.Namespaces.{
  Instance, entries, NamespaceManagement, Cluster, IsLawful, InNamespace, replace, Setup,
  allowed_patterns,
}
use argocd_operator.Namespaces.ClusterSecret.{
  names, combine, local_secret, delete_from_local, delete_managed_namespace,
}
use argocd_operator.Namespaces.ClusterSecret.Laws.{split-combine}
use argocd_operator.Namespaces.ClusterSecret.Local.{AnyLocal, NamesNot}
use argocd_operator.Namespaces.ClusterSecret.Removal.{delete_managed_namespace-NamesNot}
use argocd_operator.Namespaces.Removed.{
  namespaces_to_delete, verdict, is_revised, contains-namespaces_to_delete,
}
use argocd_operator.Condition.{Condition}
use argocd_operator.Namespaces.Manage.{reconcile_namespace_management, update_status_condition}
use argocd_operator.Namespaces.Manage.Laws.{
  Distinct, is_permitted, any_forbidden, contains-reconcile_namespace_management,
  reconcile_namespace_management_done,
}

-- A cluster secret without its namespace: its name, labels and data.
abbrev pub Entry : Type 0
Entry = String × Map String String × Map String String

abbrev entry : Secret → Entry
entry x = (x.name, x.labels, x.data_map)

abbrev secrets_at : String → List Entry → List Secret
secrets_at namespace [] = []
secrets_at namespace ((n, l, d) ∷ es) =
    record { name = n; namespace = namespace; labels = l; data_map = d } ∷ secrets_at namespace es

abbrev replace_entry : Entry → List Entry → List Entry
replace_entry e [] = []
replace_entry e (f ∷ es) = (if f.0 == e.0 then e else f) ∷ replace_entry e es

abbrev change : String → (List Entry → List Entry) → (String → List Entry) → String → List Entry
change namespace f s n = if n == namespace then f (s n) else s n

abbrev pub shop : NamespaceManagement
shop = record { name = "manage"; namespace = "shop"; managed_by = "ns"; conditions = [] }

-- `Rest` is what else the server keeps.
abbrev pub fleet : (Rest : Type 0) → Cluster
fleet Rest = record {
  State = (String → List Entry) × Rest;
  now = λ s. 0;
  namespace_names = λ s. listed ("ns" ∷ "shop" ∷ []);
  managed_namespaces = λ s n. listed [];
  namespace_labels = λ s n. inr [];
  update_namespace = λ s n l. (s, none);
  namespace_managements = λ s. listed (shop ∷ []);
  get_management = λ s n m. found shop;
  update_management = λ s m. (s, none);
  roles = λ s n. listed [];
  delete_role = λ s n m. (s, none);
  role_bindings = λ s n. listed [];
  delete_role_binding = λ s n m. (s, none);
  cluster_secrets = λ s n. listed (secrets_at n (s.0 n));
  update_secret = λ s x. ((change x.namespace (replace_entry (entry x)) s.0, s.1), none);
  create_secret = λ s x. ((change x.namespace (λ es. entry x ∷ es) s.0, s.1), none);
  stored = λ s n. secrets_at n (s.0 n);
}

secrets_at-InNamespace : (n : String) (es : List Entry) → InNamespace n (secrets_at n es)
secrets_at-InNamespace n [] = tt
secrets_at-InNamespace n (_ ∷ es) = (refl, secrets_at-InNamespace n es)

secrets_at-replace :
    (x : Secret) (es : List Entry)
    → secrets_at x.namespace (replace_entry (entry x) es) ≡ replace x (secrets_at x.namespace es)
secrets_at-replace x [] = refl
secrets_at-replace x (_ ∷ es) = ground (arith, secrets_at-replace x es)

changed-here :
    (n : String) (f : List Entry → List Entry) (s : String → List Entry) → change n f s n ≡ f (s n)
changed-here n f s = ground arith

listed-same : {A : Type 0} (xs ys : List A) → listed xs ≡ listed ys → xs ≡ ys
listed-same xs ys h = ground arith

pub fleet-IsLawful : (Rest : Type 0) → IsLawful (fleet Rest)
fleet-IsLawful Rest = record {
  secrets-listed = λ s n xs h.
      let same : secrets_at n (s.0 n) ≡ xs = listed-same (secrets_at n (s.0 n)) xs h in
      (same, subst (InNamespace n) same (secrets_at-InNamespace n (s.0 n)));
  secret-updated = λ s x h.
      ap (secrets_at x.namespace) (changed-here x.namespace (replace_entry (entry x)) s.0)
      ∙ secrets_at-replace x (s.0 x.namespace);
  secret-created =
      λ s x h. ap (secrets_at x.namespace) (changed-here x.namespace (λ es. entry x ∷ es) s.0);
}

abbrev pub setup : Setup
setup = record {
  cluster_config_namespaces = "";
  management_enabled = "true";
  matches = λ ps n. contains ps n;
  encoded_config = "{}";
  hash = λ s. "0123456";
  set_controller_reference = λ cr x. inr x;
}

abbrev allowed : String → Bool → ManagedNamespaces
allowed n b = record { name = n; allow_managed_by = b }

abbrev pub cr : Instance
cr = record {
  name = "argocd";
  namespace = "ns";
  namespace_management = some (allowed "shop" true ∷ []);
}

abbrev state : (String → List Entry) × Unit {0}
state = (
  (λ n.
      (
        "in-cluster",
        [],
        ("server", "https://kubernetes.default.svc") ∷ ("namespaces", "ns,shop") ∷ [],
      )
      ∷ []),
  tt,
)

abbrev shop_name : String
shop_name = "shop"

contains-namespaces_to_delete_example :
    contains
      (namespaces_to_delete setup.matches
        (allowed "shop" true ∷ [])
        (allowed "shop" false ∷ [])
        ("ns" ∷ "shop" ∷ []))
      shop_name
    ≡ (contains ("ns" ∷ "shop" ∷ []) shop_name
        && is_revised
            (verdict setup.matches (allowed "shop" true ∷ []) "shop")
            (verdict setup.matches (allowed "shop" false ∷ []) "shop"))
contains-namespaces_to_delete_example =
    contains-namespaces_to_delete setup.matches (allowed "shop" true ∷ [])
      (allowed "shop" false ∷ []) ("ns" ∷ "shop" ∷ []) "shop"

contains-reconcile_namespace_management_example :
    ((n : String)
      → contains (reconcile_namespace_management (fleet Unit) setup cr (state, "old" ∷ [])).0.1 n
        ≡ (contains ("old" ∷ []) n
            || is_permitted setup
                (allowed_patterns (entries cr.namespace_management))
                "ns"
                (shop ∷ [])
                n
            || n == "ns"))
    × (Distinct ("old" ∷ [])
        → Distinct (reconcile_namespace_management (fleet Unit) setup cr (state, "old" ∷ [])).0.1)
contains-reconcile_namespace_management_example =
    contains-reconcile_namespace_management (fleet Unit) setup cr (shop ∷ []) state ("old" ∷ [])
      refl

abbrev no_names : String
no_names = ""

split-combine_example :
    contains (split (combine no_names ("ns" ∷ []))) no_names
    ≡ (contains ("ns" ∷ []) no_names || contains (names no_names) no_names)
unfolding none_has_comma has_comma ℕ_eq
split-combine_example = split-combine no_names ("ns" ∷ []) no_names refl

named : (x : String) → (x == "") ≡ false → x ≢ ""
named x h k = ground arith

shop_named : shop_name ≢ ""
unfolding string_eq
shop_named = named "shop" refl

delete_shop-done : (delete_managed_namespace (fleet Unit) setup state "ns" "shop").1 ≡ done
unfolding delete_managed_namespace delete_from_local local_secret lookup string_eq
delete_shop-done = ground arith

delete_managed_namespace-NamesNot_example :
    AnyLocal
      (NamesNot "shop")
      ((fleet Unit).stored (delete_managed_namespace (fleet Unit) setup state "ns" "shop").0 "ns")
delete_managed_namespace-NamesNot_example =
    delete_managed_namespace-NamesNot (fleet Unit) (fleet-IsLawful Unit) setup state "ns" "shop"
      shop_named delete_shop-done

reconcile_namespace_management_done_example :
    ((reconcile_namespace_management (fleet Unit) setup cr (state, [])).1 ≡ done
      → any_forbidden setup (allowed_patterns (entries cr.namespace_management)) "ns" (shop ∷ [])
        ≡ false)
    × (((condition : Condition) (m : NamespaceManagement) (t : (fleet Unit).State)
          → (update_status_condition (fleet Unit) condition m t).1 ≡ none)
        → any_forbidden setup (allowed_patterns (entries cr.namespace_management)) "ns" (shop ∷ [])
          ≡ false
        → (reconcile_namespace_management (fleet Unit) setup cr (state, [])).1 ≡ done)
reconcile_namespace_management_done_example =
    reconcile_namespace_management_done (fleet Unit) setup cr (shop ∷ []) state [] refl
