-- ===== src/Tests/Sources.antt =====
-- A cluster in memory that keeps the namespaces with their labels, the roles and the role bindings, and
-- the theorems on source namespaces there.
use argocd_operator.Base.{
  String, ◌≡◌, ◌≢◌, inl, inr, refl, Bool, true, false, ◌&&◌, ◌||◌, ◌==◌, contains, string_eq,
  if◌then◌else◌, Option, none, some, List, [], ◌∷◌, Reply, found, absent, listed, done, arith,
}
use argocd_operator.Base.Map.{Map, lookup, insert}
use text.Mathlib.TextEquality.{eq_iff}
use argocd_operator.Namespaces.Manage.{managed_by_label}
use argocd_operator.Mappers.{application_set_label}
use argocd_operator.Sources.{
  Instance, Server, managed_by_cluster_label, delete_source_role, delete_source_role_binding,
  cleanup_source, remove_unmanaged,
}
use argocd_operator.Sources.Restore.{add_missing_labels}
use argocd_operator.Sources.ApplicationSets.Laws.{remove_unmanaged_sets-foreign, IsForeign}
use argocd_operator.Sources.ApplicationSets.{remove_unmanaged_sets}
use argocd_operator.Sources.Laws.{lookup-add_missing_labels, contains-remove_unmanaged}

abbrev Labels : Type 0
Labels = Map String String

-- The objects of a kind by namespace and name.
abbrev has_object : String → String → List (String × String) → Bool
has_object n m [] = false
has_object n m ((a, b) ∷ os) = (a == n && b == m) || has_object n m os

abbrev remove_object : String → String → List (String × String) → List (String × String)
remove_object n m [] = []
remove_object n m ((a, b) ∷ os) =
    let rest = remove_object n m os in if a == n && b == m then rest else (a, b) ∷ rest

record Kept : Type 0 where
  namespaces : Map String Labels
  roles : List (String × String)
  bindings : List (String × String)

abbrev names_of : Map String Labels → List String
names_of [] = []
names_of ((n, _) ∷ ns) = n ∷ names_of ns

abbrev labelled : String → String → Map String Labels → List String
labelled k v [] = []
labelled k v ((n, ls) ∷ ns) =
    let rest = labelled k v ns in
    elim (lookup k ls) [ none ↦ rest | some w ↦ if w == v then n ∷ rest else rest ]

abbrev reply : {A : Type 0} → Option A → Reply A
reply none = absent
reply (some a) = found a

abbrev server : Server
server = record {
  State = Kept;
  namespace_names = λ s. listed (names_of s.namespaces);
  labelled_namespaces = λ s k v. listed (labelled k v s.namespaces);
  get_namespace = λ s n. reply (lookup n s.namespaces);
  update_namespace = λ s n ls. (record s { namespaces = insert n ls s.namespaces }, none);
  roles_of = λ s n. listed [];
  get_role = λ s n m. if has_object n m s.roles then found tt else absent;
  delete_role = λ s n m. (record s { roles = remove_object n m s.roles }, none);
  get_role_binding = λ s n m. if has_object n m s.bindings then found tt else absent;
  delete_role_binding = λ s n m. (record s { bindings = remove_object n m s.bindings }, none);
  matches = contains;
  hash = λ s. s;
  joined = λ e m. some m;
  is_allowed = λ n. n == "argocd";
}

abbrev leaving : Instance
leaving = record {
  name = "shop";
  namespace = "argocd";
  is_deleted = true;
  source_namespaces = "a" ∷ [];
}

abbrev two_namespaces : Kept
two_namespaces = record {
  namespaces = ("a", (managed_by_cluster_label, "argocd") ∷ []) ∷ ("b", []) ∷ [];
  roles = ("a", "shop_a") ∷ [];
  bindings = ("a", "shop_a") ∷ [];
}

leaving-clean : (n : String) (s : Kept) → (cleanup_source server leaving n s).1 ≡ done
unfolding cleanup_source delete_source_role delete_source_role_binding
leaving-clean n s = ground arith

contains-remove_unmanaged_example :
    (contains (remove_unmanaged server leaving ("a" ∷ []) (two_namespaces, "a" ∷ "b" ∷ [])).0.1 "a"
      ≡ false)
    × ((remove_unmanaged server leaving ("a" ∷ []) (two_namespaces, "a" ∷ "b" ∷ [])).1 ≡ done)
unfolding string_eq
contains-remove_unmanaged_example =
    contains-remove_unmanaged server leaving leaving-clean ("a" ∷ [])
      (two_namespaces, "a" ∷ "b" ∷ []) "a" refl

lookup-add_missing_labels_example :
    lookup "x" (add_missing_labels (("x", "new") ∷ ("y", "2") ∷ []) (("x", "old") ∷ [])).1
    ≡ some "old"
unfolding string_eq lookup
lookup-add_missing_labels_example =
    lookup-add_missing_labels "x" (("x", "new") ∷ ("y", "2") ∷ []) (("x", "old") ∷ [])

-- The namespace b stays another instance's, and the namespace gone does not exist.
abbrev foreign_names : List String
foreign_names = "b" ∷ "gone" ∷ []

abbrev fixed_server : Server
fixed_server = record server {
  get_namespace = λ s n.
      if n == "b"
      then found ((application_set_label, "else") ∷ (managed_by_label, "argocd") ∷ [])
      else reply (lookup n s.namespaces);
}

b-IsForeign : (s : Kept) → IsForeign fixed_server leaving s "b"
unfolding string_eq lookup
b-IsForeign s = inr (
  (application_set_label, "else") ∷ (managed_by_label, "argocd") ∷ [],
  refl,
  inl ("else", refl, else-ne),
)
  where
    else-ne : ◌≢◌ {A = String} "else" "argocd"
    else-ne = ground (arith, eq_iff "else" "argocd")

remove_unmanaged_sets-foreign_example :
    (contains
        (remove_unmanaged_sets fixed_server leaving
          (some [])
          ("a" ∷ "b" ∷ [])
          ((two_namespaces, []), foreign_names)).0.1
        "b"
      ≡ contains foreign_names "b")
    × (remove_unmanaged_sets fixed_server leaving
          (some [])
          foreign_names
          ((two_namespaces, []), foreign_names)
        ≡ (((two_namespaces, []), foreign_names), done))
unfolding string_eq lookup
remove_unmanaged_sets-foreign_example =
    remove_unmanaged_sets-foreign fixed_server leaving (some []) ("a" ∷ "b" ∷ []) foreign_names "b"
      ((two_namespaces, []), foreign_names) b-IsForeign (b-IsForeign two_namespaces, (inl refl, tt))
