-- ===== src/Namespaces/Manage/Laws.antt =====
-- Which namespaces an instance manages after reconcileNamespaceManagement, and when it reports an error.
use argocd_operator.Base.{
  String, Bool, false, ◌&&◌, ◌||◌, ◌==◌, contains, string_eq, if◌then◌else◌, ◌≡◌, refl, none, List,
  [], ◌∷◌, ◌++◌, listed, done, arith,
}
use argocd_operator.Condition.{Condition, create_condition}
use argocd_operator.Namespaces.{
  Instance, entries, NamespaceManagement, Cluster, Setup, allowed_patterns,
}
use argocd_operator.Namespaces.ClusterSecret.{targeting}
use argocd_operator.Namespaces.Manage.{
  Update, update_status_condition, summary, is_forbidden, forbidden_messages, status_updates,
  append_new, run_updates, manage_listed, reconcile_namespace_management,
}

abbrev pub Distinct : List String → Type 0
Distinct [] = Unit
Distinct (n ∷ ns) = (contains ns n ≡ false) × Distinct ns

contains-++ :
    (n : String) (xs ys : List String) → contains (xs ++ ys) n ≡ (contains xs n || contains ys n)
contains-++ n [] ys = refl
contains-++ n (x ∷ xs) ys = ground (arith, contains-++ n xs ys)

++-Distinct :
    (xs : List String) (n : String)
    → Distinct xs
    → contains xs n ≡ false
    → Distinct (xs ++ (n ∷ []))
++-Distinct [] n d h = (refl, tt)
++-Distinct (x ∷ xs) n d h = ground (arith, ++-Distinct xs n, contains-++ x xs (n ∷ []))

contains-append_new :
    (n : String) (names ns : List String)
    → contains (append_new names ns) n ≡ (contains names n || contains ns n)
unfolding append_new
contains-append_new n names [] = ground arith
contains-append_new n names (x ∷ ns) = ground (
  arith,
  contains-append_new n (names ++ (x ∷ [])) ns,
  contains-append_new n names ns,
  contains-++ n names (x ∷ []),
)

append_new-Distinct : (names ns : List String) → Distinct names → Distinct (append_new names ns)
unfolding append_new
append_new-Distinct names [] d = d
append_new-Distinct names (n ∷ ns) d =
    append_new-Distinct (if contains names n then names else names ++ (n ∷ [])) ns
      (ground (arith, ++-Distinct names n))

-- Whether a resource asks for the namespace and the instance allows it.
abbrev pub is_permitted : Setup → List String → String → List NamespaceManagement → String → Bool
is_permitted u patterns namespace [] n = false
is_permitted u patterns namespace (m ∷ ms) n =
    (m.managed_by == namespace && u.matches patterns m.namespace && n == m.namespace)
    || is_permitted u patterns namespace ms n

contains-targeting :
    (u : Setup) (patterns : List String) (namespace : String) (ms : List NamespaceManagement)
    (n : String)
    → contains (targeting u patterns namespace ms) n ≡ is_permitted u patterns namespace ms n
unfolding targeting
contains-targeting u patterns namespace [] n = refl
contains-targeting u patterns namespace (m ∷ ms) n =
    ground (arith, contains-targeting u patterns namespace ms n)

-- Whether some resource targets the instance without being allowed.
abbrev pub any_forbidden : Setup → List String → String → List NamespaceManagement → Bool
any_forbidden u patterns namespace [] = false
any_forbidden u patterns namespace (m ∷ ms) =
    is_forbidden u patterns namespace m || any_forbidden u patterns namespace ms

-- The end of a run with these messages of each sort.
summary_done :
    (c : Cluster) (u : Setup) (patterns : List String) (namespace : String)
    (ms : List NamespaceManagement) (failures : List String)
    → ((summary c (forbidden_messages u patterns namespace ms ++ failures) ≡ done)
        → any_forbidden u patterns namespace ms ≡ false)
      × (failures ≡ []
          → any_forbidden u patterns namespace ms ≡ false
          → summary c (forbidden_messages u patterns namespace ms ++ failures) ≡ done)
unfolding forbidden_messages
summary_done c u patterns namespace [] failures = (λ h. refl, λ h k. rw h refl)
summary_done c u patterns namespace (m ∷ ms) failures =
    ground (arith, summary_done c u patterns namespace ms failures)

run_updates_silent :
    (c : Cluster)
    → ((condition : Condition) (m : NamespaceManagement) (s : c.State)
        → (update_status_condition c condition m s).1 ≡ none)
    → (updates : List Update) (s : c.State) → (run_updates c updates s).1 ≡ []
unfolding run_updates
run_updates_silent c silent [] s = refl
run_updates_silent c silent (x ∷ xs) s =
    let t = update_status_condition c (create_condition x.message) x.management s in
    rw (silent (create_condition x.message) x.management s) (run_updates_silent c silent xs t.0)

module _ (c : Cluster) (u : Setup) (cr : Instance) (ms : List NamespaceManagement) (s : c.State)
    (managed : List String) where
  abbrev patterns : List String
  patterns = allowed_patterns (entries cr.namespace_management)

  -- If the resources are listed: a namespace is managed afterwards, whatever the status updates give,
  -- exactly if it was managed before, a resource asks for it and the instance allows it, or it is the
  -- instance's own; and no namespace is managed twice if none was.
  pub contains-reconcile_namespace_management :
      c.namespace_managements s ≡ listed ms
      → ((n : String)
          → contains (reconcile_namespace_management c u cr (s, managed)).0.1 n ≡ (
              contains managed n || is_permitted u patterns cr.namespace ms n || n == cr.namespace))
        × (Distinct managed → Distinct (reconcile_namespace_management c u cr (s, managed)).0.1)
  unfolding reconcile_namespace_management manage_listed
  contains-reconcile_namespace_management h =
      let asked = targeting u patterns cr.namespace ms in
      rw (reconcile_namespace_management, h)
        (
          λ n. ground (
            arith,
            contains-append_new n managed (asked ++ (cr.namespace ∷ [])),
            contains-++ n asked (cr.namespace ∷ []),
            contains-targeting u patterns cr.namespace ms n,
          ),
          append_new-Distinct managed (asked ++ (cr.namespace ∷ [])),
        )

  -- If the resources are listed: where no error is reported, every resource that targets the instance is
  -- one that it allows; and where that is so and no status update fails, no error is reported.
  pub reconcile_namespace_management_done :
      c.namespace_managements s ≡ listed ms
      → ((reconcile_namespace_management c u cr (s, managed)).1 ≡ done
          → any_forbidden u patterns cr.namespace ms ≡ false)
        × (((condition : Condition) (m : NamespaceManagement) (t : c.State)
              → (update_status_condition c condition m t).1 ≡ none)
            → any_forbidden u patterns cr.namespace ms ≡ false
            → (reconcile_namespace_management c u cr (s, managed)).1 ≡ done)
  unfolding reconcile_namespace_management manage_listed
  reconcile_namespace_management_done h =
      let updates = status_updates u patterns cr.namespace ms in
      let ends = summary_done c u patterns cr.namespace ms (run_updates c updates s).1 in
      rw (reconcile_namespace_management, h)
        (ends.0, λ silent. ends.1 (run_updates_silent c silent updates s))
