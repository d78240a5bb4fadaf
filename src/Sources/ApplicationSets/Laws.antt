-- ===== src/Sources/ApplicationSets/Laws.antt =====
-- Which namespaces the removal of ApplicationSet resources leaves alone.
use argocd_operator.Base.{
  String, ◌≡◌, ◌≢◌, ◌⊎◌, inl, inr, refl, subst, ◌∙◌, ap, contains, string_eq, false, Option, none,
  some, List, [], ◌∷◌, found, absent, Run, done, failed, panicked, ◌then_do◌, arith,
}
use argocd_operator.Base.Map.{Map, lookup}
use argocd_operator.Mappers.{application_set_label}
use argocd_operator.Namespaces.Manage.{managed_by_label}
use argocd_operator.Sources.{Instance, Server, source_namespaces}
use argocd_operator.Sources.Laws.{contains-without}
use argocd_operator.Sources.ApplicationSets.{
  owner, is_owner, Progress, drop_set, remove_owned, remove_set, remove_unmanaged_sets,
}

-- The labels of a namespace give it to another instance than that of this namespace, or to none. The
-- managed-by label counts only where that of ApplicationSets is missing.
abbrev pub IsForeignTo : String → Map String String → Type 0
IsForeignTo namespace labels =
    ((v : String) × (lookup application_set_label labels ≡ some v) × (v ≢ namespace))
    ⊎ (lookup application_set_label labels ≡ none)
      × ((v : String) × (lookup managed_by_label labels ≡ some v) × (v ≢ namespace))
    ⊎ (lookup application_set_label labels ≡ none) × (lookup managed_by_label labels ≡ none)

is_owner_foreign :
    (namespace : String) (labels : Map String String)
    → IsForeignTo namespace labels
    → is_owner namespace labels ≡ false
unfolding is_owner owner
is_owner_foreign namespace labels (inl (v, e, d)) = ground arith
is_owner_foreign namespace labels (inr (inl (e, (v, f, d)))) = ground arith
is_owner_foreign namespace labels (inr (inr (e, f))) = ground arith

module _ (c : Server) (cr : Instance) where
  -- The namespace does not exist, or is another instance's or none's.
  abbrev pub IsForeign : c.State → String → Type 0
  IsForeign s n =
      (c.get_namespace s n ≡ absent)
      ⊎ ((labels : Map String String) × (c.get_namespace s n ≡ found labels)
          × IsForeignTo cr.namespace labels)

  abbrev pub AllForeign : c.State → List String → Type 0
  AllForeign s [] = Unit {0}
  AllForeign s (n ∷ ns) = IsForeign s n × AllForeign s ns

  remove_set_foreign :
      (patterns : Option (List String)) (n : String) (t : Progress c)
      → IsForeign t.0.0 n
      → remove_set c cr patterns n t ≡ (t, done)
  unfolding remove_set
  remove_set_foreign patterns n t (inl e) = rw (remove_set, e) refl
  remove_set_foreign patterns n t (inr (labels, e, f)) =
      rw (remove_set, e, is_owner_foreign cr.namespace labels f) refl

  drop_set-other :
      (m n : String) (t : Progress c) → n ≢ m → contains (drop_set c cr m t).1 n ≡ contains t.1 n
  unfolding drop_set
  drop_set-other m n ((s, apps), sets) h = ground (arith, contains-without c m n sets)

  remove_owned-other :
      (patterns : Option (List String)) (m n : String) (t : Progress c)
      → n ≢ m
      → contains (remove_owned c cr patterns m t).0.1 n ≡ contains t.1 n
  unfolding remove_owned
  remove_owned-other none m n t h = drop_set-other m n t h
  remove_owned-other (some ps) m n (w, sets) h = ground (
    arith,
    drop_set-other m n (w, sets) h,
    drop_set-other m n ((source_namespaces c cr w).0, sets) h,
  )

  remove_set-other :
      (patterns : Option (List String)) (m n : String) (t : Progress c)
      → n ≢ m
      → contains (remove_set c cr patterns m t).0.1 n ≡ contains t.1 n
  unfolding remove_set
  remove_set-other patterns m n t h = ground (arith, remove_owned-other patterns m n t h)

  remove_set-never :
      (patterns : Option (List String)) (m n : String) (t : Progress c)
      → ((s : c.State) → IsForeign s n)
      → contains (remove_set c cr patterns m t).0.1 n ≡ contains t.1 n
  remove_set-never patterns m n t h = elim (string_eq.dec n m) [
    | yes e ↦
        ap (λ (r : Run (Progress c)). contains r.0.1 n)
          (remove_set_foreign patterns m t (subst (IsForeign t.0.0) e (h t.0.0)))
    | no d ↦ remove_set-other patterns m n t d
  ]

  then_do-never :
      (n : String) (u : Run (Progress c)) (f : Progress c → Run (Progress c))
      → ((t : Progress c) → contains (f t).0.1 n ≡ contains t.1 n)
      → contains (u then_do f).0.1 n ≡ contains u.0.1 n
  unfolding ◌then_do◌
  then_do-never n (t, done) f h = h t
  then_do-never n (t, failed e) f h = refl
  then_do-never n (t, panicked) f h = refl

  never_removed :
      (patterns : Option (List String)) (ns : List String) (n : String)
      → ((s : c.State) → IsForeign s n)
      → (t : Progress c)
      → contains (remove_unmanaged_sets c cr patterns ns t).0.1 n ≡ contains t.1 n
  unfolding remove_unmanaged_sets
  never_removed patterns [] n h t = refl
  never_removed patterns (m ∷ ns) n h t =
      then_do-never n (remove_set c cr patterns m t) (remove_unmanaged_sets c cr patterns ns)
        (never_removed patterns ns n h)
      ∙ remove_set-never patterns m n t h

  none_removed :
      (patterns : Option (List String)) (ns : List String) (t : Progress c)
      → AllForeign t.0.0 ns
      → remove_unmanaged_sets c cr patterns ns t ≡ (t, done)
  unfolding remove_unmanaged_sets ◌then_do◌
  none_removed patterns [] t f = refl
  none_removed patterns (n ∷ ns) t (f, g) =
      rw (remove_unmanaged_sets, remove_set_foreign patterns n t f) (none_removed patterns ns t g)

  -- A namespace whose labels never give it to the instance stays on the map, whatever other keys are
  -- visited, whatever the server answers and whatever the outcome. Where every visited key is such a
  -- namespace or is absent when the removal starts, the removal ends without an error and changes nothing on
  -- the server or in the maps.
  pub remove_unmanaged_sets-foreign :
      (patterns : Option (List String)) (ns foreign : List String) (n : String) (t : Progress c)
      → ((s : c.State) → IsForeign s n)
      → AllForeign t.0.0 foreign
      → (contains (remove_unmanaged_sets c cr patterns ns t).0.1 n ≡ contains t.1 n)
        × (remove_unmanaged_sets c cr patterns foreign t ≡ (t, done))
  remove_unmanaged_sets-foreign patterns ns foreign n t h f =
      (never_removed patterns ns n h t, none_removed patterns foreign t f)
