-- ===== src/Sources/Laws.antt =====
-- Which source namespaces are given up, and which labels are restored.
use argocd_operator.Base.{
  String, true, false, not, ◌&&◌, ◌||◌, ◌==◌, contains, string_eq, if◌then◌else◌, ◌≡◌, refl, ap,
  ◌∙◌, none, some, List, [], ◌∷◌, inl, inr, Bool-cases, done, arith,
}
use argocd_operator.Base.Map.{Map, lookup, insert, lookup-insert}
use argocd_operator.Sources.Restore.{add_missing_labels}
use argocd_operator.Sources.{
  Instance, Server, cleanup_source, without, cleanup_and_forget, ensure_allowed, cleanup_all,
  remove_unmanaged,
}

-- The restored labels of a namespace: each one that it has is kept, whatever is required, and each one
-- that it lacks is as required.
pub lookup-add_missing_labels :
    (k : String) (required labels : Map String String)
    → lookup k (add_missing_labels required labels).1
      ≡ elim (lookup k labels) [ some v ↦ some v | none ↦ lookup k required ]
unfolding add_missing_labels lookup
lookup-add_missing_labels k [] labels = ground arith
lookup-add_missing_labels k ((j, v) ∷ required) labels = ground (
  arith,
  lookup-add_missing_labels k required labels,
  lookup-add_missing_labels k required (insert j v labels),
  lookup-insert k j v labels,
)

pub contains-without :
    (c : Server) (m n : String) (ns : List String)
    → contains (without c m ns) n ≡ (contains ns n && not (n == m))
unfolding without
contains-without c m n [] = refl
contains-without c m n (x ∷ ns) = ground (arith, contains-without c m n ns)

missing :
    (k n : String) (ks ns : List String)
    → contains ns k ≡ false
    → (contains ns n && not (contains ks n)) ≡ (contains ns n && not (n == k || contains ks n))
missing k n ks ns h = ground arith

-- In this section every clean-up of a namespace ends without an error.
module _ (c : Server) (cr : Instance)
    (clean : (n : String) (s : c.State) → (cleanup_source c cr n s).1 ≡ done) where
  managed-cleanup_and_forget :
      (k : String) (t : c.State × List String) → (cleanup_and_forget c cr k t).1 ≡ without c k t.1
  unfolding cleanup_and_forget
  managed-cleanup_and_forget k (s, managed) = rw (cleanup_and_forget, clean k s) refl

  contains-cleanup_and_forget :
      (k n : String) (t : c.State × List String)
      → contains (cleanup_and_forget c cr k t).1 n ≡ (contains t.1 n && not (n == k))
  contains-cleanup_and_forget k n t =
      ap (λ ns. contains ns n) (managed-cleanup_and_forget k t) ∙ contains-without c k n t.1

  contains-cleanup_all :
      (ks : List String) (t : c.State × List String) (n : String)
      → contains (cleanup_all c cr ks t).1 n ≡ (contains t.1 n && not (contains ks n))
  unfolding cleanup_all
  contains-cleanup_all [] t n = ground arith
  contains-cleanup_all (k ∷ ks) t n = ground (
    arith,
    contains-cleanup_all ks (cleanup_and_forget c cr k t) n,
    contains-cleanup_and_forget k n t,
  )

  -- Where every clean-up ends without an error, an instance outside the namespaces that may configure the
  -- cluster is left with no source namespace.
  contains-ensure_allowed :
      (t : c.State × List String) (n : String)
      → c.is_allowed cr.namespace ≡ false
      → contains (ensure_allowed c cr t).1 n ≡ false
  unfolding ensure_allowed
  contains-ensure_allowed (s, managed) n f =
      rw f (contains-cleanup_all managed (s, managed) n ∙ ground arith)

  remove_unmanaged_step :
      (k : String) (ks : List String) (t : c.State × List String)
      → cr.is_deleted ≡ true
      → remove_unmanaged c cr (k ∷ ks) t ≡ (
          if contains t.1 k
          then remove_unmanaged c cr ks (cleanup_and_forget c cr k t)
          else remove_unmanaged c cr ks t)
  unfolding remove_unmanaged
  remove_unmanaged_step k ks (s, managed) d = ground arith

  -- Where every clean-up ends without an error, the removal for an instance that is being deleted ends
  -- without an error too, and takes each visited key off the map and no other.
  pub contains-remove_unmanaged :
      (ks : List String) (t : c.State × List String) (n : String)
      → cr.is_deleted ≡ true
      → (contains (remove_unmanaged c cr ks t).0.1 n ≡ (contains t.1 n && not (contains ks n)))
        × ((remove_unmanaged c cr ks t).1 ≡ done)
  unfolding remove_unmanaged
  contains-remove_unmanaged [] t n d = (ground arith, refl)
  contains-remove_unmanaged (k ∷ ks) t n d =
      rw (remove_unmanaged_step k ks t d) (elim (Bool-cases (contains t.1 k)) [
        | inl y ↦
            let i = contains-remove_unmanaged ks (cleanup_and_forget c cr k t) n d in
            rw y (ground (arith, i.0, contains-cleanup_and_forget k n t), i.1)
        | inr y ↦
            let i = contains-remove_unmanaged ks t n d in rw y (i.0 ∙ missing k n ks t.1 y, i.1)
      ])
