-- ===== src/Mappers/Laws.antt =====
-- Which instances a namespace's event reconciles.
use argocd_operator.Base.{
  String, Bool, true, false, ◌&&◌, ◌||◌, ◌==◌, contains, string_eq, pair_eq, if◌then◌else◌, ◌≡◌,
  refl, ◌∙◌, Option, none, some, List, [], ◌∷◌, Listing, listed, arith,
}
use argocd_operator.Base.Map.{lookup}
use argocd_operator.Namespaces.Manage.{managed_by_label}
use argocd_operator.Mappers.{
  Request, Object, Instance, request_of, only, all_requests, application_set_label, sourcing,
  namespace_resource_mapper,
}

-- Whether an instance among these that satisfies the test has this namespace and name.
abbrev pub any_instance : (Instance → Bool) → List Instance → Request → Bool
any_instance test [] r = false
any_instance test (i ∷ is) r = (test i && r == request_of i) || any_instance test is r

contains-sourcing :
    (matches : List String → String → Bool) (namespace : String) (is : List Instance) (r : Request)
    → contains (sourcing matches namespace is) r
      ≡ any_instance (λ i. matches i.source_namespaces namespace) is r
unfolding sourcing
contains-sourcing matches namespace [] r = refl
contains-sourcing matches namespace (i ∷ is) r =
    ground (arith, contains-sourcing matches namespace is r)

contains-all_requests :
    (is : List Instance) (r : Request)
    → contains (all_requests is) r ≡ any_instance (λ i. true) is r
contains-all_requests [] r = refl
contains-all_requests (i ∷ is) r = ground (arith, contains-all_requests is r)

-- The instances of a namespace.
abbrev pub in_namespace : String → List Instance → List Instance
in_namespace v [] = []
in_namespace v (i ∷ is) =
    let rest = in_namespace v is in if i.namespace == v then i ∷ rest else rest

abbrev pub is_single : List Instance → Bool
is_single (i ∷ []) = true
is_single _ = false

-- Whether an instance is concerned by the event of a namespace with these values of the managed-by
-- label and of that of ApplicationSets, all being the instances of the cluster.
abbrev pub is_concerned :
    (List String → String → Bool)
    → List Instance
    → String
    → Option String
    → Option String
    → Instance
    → Bool
is_concerned matches all name (some v) a i = i.namespace == v && is_single (in_namespace v all)
is_concerned matches all name none (some v) i = i.namespace == v
is_concerned matches all name none none i = matches i.source_namespaces name

contains-only :
    (is : List Instance) (r : Request)
    → contains (only (listed is)) r ≡ any_instance (λ i. is_single is) is r
contains-only [] r = refl
contains-only (i ∷ []) r = ground arith
contains-only (i ∷ j ∷ is) r = none_of (i ∷ j ∷ is)
  where
    none_of : (js : List Instance) → false ≡ any_instance (λ i. false) js r
    none_of [] = refl
    none_of (j ∷ js) = none_of js

any_instance-in_namespace :
    (v : String) (single : Bool) (is : List Instance) (r : Request)
    → any_instance (λ i. single) (in_namespace v is) r
      ≡ any_instance (λ i. i.namespace == v && single) is r
any_instance-in_namespace v single [] r = refl
any_instance-in_namespace v single (i ∷ is) r =
    ground (arith, any_instance-in_namespace v single is r)

any_instance-here :
    (v : String) (is : List Instance) (r : Request)
    → any_instance (λ i. true) (in_namespace v is) r ≡ any_instance (λ i. i.namespace == v) is r
any_instance-here v [] r = refl
any_instance-here v (i ∷ is) r = ground (arith, any_instance-here v is r)

-- Where the API server lists all instances, and for a namespace those that are in it: the event of a
-- namespace requests exactly the instances that it concerns. With the managed-by label these are the
-- instance in the namespace that the label names, if it is the only one there; with the label of
-- ApplicationSets alone, all instances in the namespace that it names; and with neither, the instances
-- with a source namespace pattern that matches.
pub contains-namespace_resource_mapper :
    (matches : List String → String → Bool) (instances_in : String → Listing Instance)
    (all : List Instance) (o : Object) (r : Request)
    → ((v : String) → instances_in v ≡ listed (in_namespace v all))
    → contains (namespace_resource_mapper matches instances_in (listed all) o) r
      ≡ any_instance
          (is_concerned matches all o.name
            (lookup managed_by_label o.labels)
            (lookup application_set_label o.labels))
          all
          r
unfolding namespace_resource_mapper
contains-namespace_resource_mapper matches instances_in all o r h =
    by_labels (lookup managed_by_label o.labels) (lookup application_set_label o.labels) refl refl
  where
    by_labels :
        (m a : Option String)
        → lookup managed_by_label o.labels ≡ m
        → lookup application_set_label o.labels ≡ a
        → contains (namespace_resource_mapper matches instances_in (listed all) o) r
          ≡ any_instance (is_concerned matches all o.name m a) all r
    by_labels (some v) a e d =
        rw (namespace_resource_mapper, e, h v)
          (contains-only (in_namespace v all) r
            ∙ any_instance-in_namespace v (is_single (in_namespace v all)) all r)
    by_labels none (some v) e d =
        rw (namespace_resource_mapper, e, d, h v)
          (contains-all_requests (in_namespace v all) r ∙ any_instance-here v all r)
    by_labels none none e d =
        rw (namespace_resource_mapper, e, d) (contains-sourcing matches o.name all r)
