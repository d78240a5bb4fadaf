-- ===== src/Namespaces/Removed.antt =====
-- getNamespacesToDelete of controllers/argocd/util.go: the namespaces that an edit of an instance's
-- list of patterns removes, or allows or forbids anew. `matches` is the glob match.
use argocd_operator.Base.{
  String, Bool, false, not, ◌&&◌, ◌==◌, contains, string_eq, Bool_eq, option_eq, if◌then◌else◌, ◌≡◌,
  refl, ◌∙◌, Option, none, some, List, [], ◌∷◌, arith,
}
use argocd_operator.Base.Map.{Map, lookup, insert, lookup-insert, DistinctKeys, insert-DistinctKeys}
use argocd_operator.Api.Parts.{ManagedNamespaces}

-- Whether a namespace that had a verdict has another one or none.
abbrev pub is_revised : Option Bool → Option Bool → Bool
is_revised none new = false
is_revised (some a) new = not (new == some a)

module _ (matches : List String → String → Bool) where
  -- The inner loop of expandNsPatterns.
  unfoldable pub expand_entry : ManagedNamespaces → List String → Map String Bool → Map String Bool
  unfolding insert
  expand_entry e [] m = m
  expand_entry e (n ∷ ns) m =
      expand_entry e ns (if matches (e.name ∷ []) n then insert n e.allow_managed_by m else m)

  unfoldable pub expand_patterns :
      List ManagedNamespaces → List String → Map String Bool → Map String Bool
  unfolding expand_entry
  expand_patterns [] ns m = m
  expand_patterns (e ∷ es) ns m = expand_patterns es ns (expand_entry e ns m)

  -- The loop over the old map.
  unfoldable pub removed_names : Map String Bool → Map String Bool → List String
  unfolding lookup
  removed_names [] new = []
  removed_names ((n, allowed) ∷ old) new =
      let rest = removed_names old new in if lookup n new == some allowed then rest else n ∷ rest

  unfoldable pub namespaces_to_delete :
      List ManagedNamespaces → List ManagedNamespaces → List String → List String
  unfolding expand_patterns removed_names
  namespaces_to_delete old new ns =
      removed_names (expand_patterns old ns []) (expand_patterns new ns [])

  -- What the last entry that matches a namespace says of it.
  abbrev pub verdict : List ManagedNamespaces → String → Option Bool
  verdict [] n = none
  verdict (e ∷ es) n = elim (verdict es n) [
    | some a ↦ some a
    | none ↦ if matches (e.name ∷ []) n then some e.allow_managed_by else none
  ]

  lookup-expand_entry :
      (e : ManagedNamespaces) (n : String) (ns : List String) (m : Map String Bool)
      → lookup n (expand_entry e ns m)
        ≡ (if contains ns n && matches (e.name ∷ []) n then some e.allow_managed_by else lookup n m)
  unfolding expand_entry
  lookup-expand_entry e n [] m = refl
  lookup-expand_entry e n (x ∷ ns) m = ground (
    arith,
    lookup-expand_entry e n ns (insert x e.allow_managed_by m),
    lookup-expand_entry e n ns m,
    lookup-insert n x e.allow_managed_by m,
  )

  lookup-expand_patterns :
      (es : List ManagedNamespaces) (n : String) (ns : List String) (m : Map String Bool)
      → lookup n (expand_patterns es ns m) ≡ (
          if contains ns n
          then elim (verdict es n) [ none ↦ lookup n m | some a ↦ some a ]
          else lookup n m)
  unfolding expand_patterns
  lookup-expand_patterns [] n ns m = ground arith
  lookup-expand_patterns (e ∷ es) n ns m =
      ground
        (arith, lookup-expand_patterns es n ns (expand_entry e ns m), lookup-expand_entry e n ns m)

  expand_entry-DistinctKeys :
      (e : ManagedNamespaces) (ns : List String) (m : Map String Bool)
      → DistinctKeys m
      → DistinctKeys (expand_entry e ns m)
  unfolding expand_entry
  expand_entry-DistinctKeys e [] m d = d
  expand_entry-DistinctKeys e (n ∷ ns) m d =
      expand_entry-DistinctKeys e ns
        (if matches (e.name ∷ []) n then insert n e.allow_managed_by m else m)
        (ground (arith, insert-DistinctKeys n e.allow_managed_by m))

  expand_patterns-DistinctKeys :
      (es : List ManagedNamespaces) (ns : List String) (m : Map String Bool)
      → DistinctKeys m
      → DistinctKeys (expand_patterns es ns m)
  unfolding expand_patterns
  expand_patterns-DistinctKeys [] ns m d = d
  expand_patterns-DistinctKeys (e ∷ es) ns m d =
      expand_patterns-DistinctKeys es ns (expand_entry e ns m) (expand_entry-DistinctKeys e ns m d)

  contains-removed_names :
      (n : String) (old new : Map String Bool)
      → DistinctKeys old
      → contains (removed_names old new) n ≡ is_revised (lookup n old) (lookup n new)
  unfolding removed_names lookup
  contains-removed_names n [] new d = refl
  contains-removed_names n ((k, a) ∷ old) new d = ground (arith, contains-removed_names n old new)

  -- A namespace is to be cleaned up exactly if it exists, an old entry matches it, and what the last
  -- such entry says of it is not what the last matching new entry says, or no new entry matches.
  pub contains-namespaces_to_delete :
      (old new : List ManagedNamespaces) (ns : List String) (n : String)
      → contains (namespaces_to_delete old new ns) n
        ≡ (contains ns n && is_revised (verdict old n) (verdict new n))
  unfolding namespaces_to_delete
  contains-namespaces_to_delete old new ns n =
      contains-removed_names n (expand_patterns old ns []) (expand_patterns new ns [])
        (expand_patterns-DistinctKeys old ns [] tt)
      ∙ ground (arith, lookup-expand_patterns old n ns [], lookup-expand_patterns new n ns [])
