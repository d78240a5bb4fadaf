-- ===== src/Sources/ApplicationSets.antt =====
-- The source namespaces of an instance's ApplicationSets, of controllers/argocd/applicationset.go:
-- setManagedApplicationSetSourceNamespaces, getApplicationSetSourceNamespaces,
-- removeUnmanagedApplicationSetSourceNamespaceResources and the clean-up that it calls. The patterns of
-- spec.applicationSet.sourceNamespaces are `none` where spec.applicationSet is nil.
pub mod Laws
use argocd_operator.Base.{
  String, ◌<>◌, Bool, true, false, not, ◌&&◌, ◌==◌, contains, string_eq, if◌then◌else◌, Option,
  none, some, List, [], ◌∷◌, found, absent, refused, Listing, listed, unlisted, Run, done, failed,
  panicked, Outcome, ◌then_do◌,
}
use argocd_operator.Base.Commas.{sort}
use argocd_operator.Base.Map.{Map, lookup, erase}
use argocd_operator.Namespaces.{ended}
use argocd_operator.Namespaces.Manage.{managed_by_label}
use argocd_operator.Mappers.{application_set_label}
use argocd_operator.Sources.{
  Instance, Server, application_set_name, keys, without, matching, source_namespaces,
}

-- The namespace of the instance that a namespace's labels name as its owner.
unfoldable pub owner : Map String String → Option String
unfolding lookup
owner labels = elim (lookup application_set_label labels) [
  | some v ↦ some v
  | none ↦ lookup managed_by_label labels
]

unfoldable pub is_owner : String → Map String String → Bool
unfolding owner
is_owner namespace labels = elim (owner labels) [
  | none ↦ false
  | some v ↦ v == namespace && not (v == "")
]

module _ (c : Server) where
  -- setManagedApplicationSetSourceNamespaces: the names are added to those on the map.
  unfoldable pub set_managed_sets : Instance → List String → c.State → List String × Outcome
  set_managed_sets cr managed s =
      elim (c.labelled_namespaces s application_set_label cr.namespace) [
        | unlisted e ↦ (managed, failed e)
        | listed ns ↦ (keys c ns managed, done)
      ]

  unfoldable pub application_set_namespaces : Option (List String) → c.State → Listing String
  application_set_namespaces none s = listed []
  application_set_namespaces (some patterns) s = elim (c.namespace_names s) [
    | unlisted e ↦ unlisted e
    | listed ns ↦ listed (sort (matching c patterns ns))
  ]

  unfoldable pub delete_set_role : Instance → String → c.State → Run c.State
  delete_set_role cr n s =
      let (t, e) = c.delete_role s n (application_set_name cr) in
      elim (c.get_role s n (application_set_name cr)) [
        | refused m ↦ (
          s,
          failed (
              "failed to fetch the role for the service account associated with argocd-applicationset-controller : "
              <> m),
        )
        | absent ↦ (s, done)
        | found _ ↦ (t, ended e)
      ]

  unfoldable pub delete_set_role_binding : Instance → String → c.State → Run c.State
  delete_set_role_binding cr n s =
      let (t, e) = c.delete_role_binding s n (application_set_name cr) in
      elim (c.get_role_binding s n (application_set_name cr)) [
        | refused m ↦ (
          s,
          failed (
              "failed to get the rolebinding associated with argocd-applicationset-controller : "
              <> m),
        )
        | absent ↦ (s, done)
        | found _ ↦ (t, ended e)
      ]

  unfoldable pub unlabel_set : String → Map String String → c.State → Run c.State
  unfolding erase
  unlabel_set n labels s =
      let (t, e) = c.update_namespace s n (erase application_set_label labels) in
      (
        t,
        elim e [
          | none ↦ done
          | some m ↦
              failed ("failed to remove applicationset label from namespace " <> n <> " : " <> m)
        ],
      )

  -- cleanupUnmanagedApplicationSetSourceNamespaceResources
  unfoldable pub cleanup_set : Instance → String → c.State → Run c.State
  unfolding delete_set_role delete_set_role_binding unlabel_set ◌then_do◌
  cleanup_set cr n s = elim (c.get_namespace s n) [
    | absent ↦ (s, done)
    | refused e ↦ (s, failed e)
    | found labels ↦
        (delete_set_role cr n s then_do delete_set_role_binding cr n) then_do unlabel_set n labels
  ]

  -- The state of the API server, the keys of ManagedSourceNamespaces and those of
  -- ManagedApplicationSetSourceNamespaces.
  abbrev pub Progress : Type 0
  Progress = (c.State × List String) × List String

  unfoldable pub drop_set : Instance → String → Progress → Progress
  unfolding cleanup_set without
  drop_set cr n ((s, apps), sets) =
      let (t, o) = cleanup_set cr n s in
      ((t, apps), elim o [ done ↦ without c n sets | failed e ↦ sets | panicked ↦ sets ])

  -- A namespace of the instance is kept if it matches a pattern and is a source namespace of applications.
  unfoldable pub remove_owned : Instance → Option (List String) → String → Progress → Run Progress
  unfolding source_namespaces drop_set
  remove_owned cr none n t = (drop_set cr n t, done)
  remove_owned cr (some patterns) n (w, sets) =
      let (v, sources) = source_namespaces c cr w in
      if c.is_allowed cr.namespace && not cr.is_deleted
      then elim sources [
        | unlisted e ↦ ((v, sets), failed e)
        | listed ms ↦
            if c.matches patterns n && contains ms n
            then ((v, sets), done)
            else (drop_set cr n (v, sets), done)
      ]
      else (drop_set cr n (w, sets), done)

  unfoldable pub remove_set : Instance → Option (List String) → String → Progress → Run Progress
  unfolding is_owner remove_owned
  remove_set cr patterns n t = elim (c.get_namespace t.0.0 n) [
    | absent ↦ (t, done)
    | refused e ↦ (t, failed ("unable to get ns: " <> e))
    | found labels ↦
        if is_owner cr.namespace labels then remove_owned cr patterns n t else (t, done)
  ]

  -- removeUnmanagedApplicationSetSourceNamespaceResources, over the keys of the map
  unfoldable pub remove_unmanaged_sets :
      Instance → Option (List String) → List String → Progress → Run Progress
  unfolding remove_set ◌then_do◌
  remove_unmanaged_sets cr patterns [] t = (t, done)
  remove_unmanaged_sets cr patterns (n ∷ ns) t =
      remove_set cr patterns n t then_do remove_unmanaged_sets cr patterns ns
