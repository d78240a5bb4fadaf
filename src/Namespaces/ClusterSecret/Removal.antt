-- ===== src/Namespaces/ClusterSecret/Removal.antt =====
-- The cluster secret that the API server holds after a namespace is removed.
use argocd_operator.Base.{
  String, Bool, true, false, ◌==◌, string_eq, ◌≡◌, ◌≢◌, refl, ap, ◌∙◌, Option, none, some, List,
  Listing, listed, unlisted, done, arith,
}
use argocd_operator.Base.Map.{lookup, insert}
use argocd_operator.LocalUsers.Cluster.{Secret}
use argocd_operator.Namespaces.{Cluster, IsLawful, Setup}
use argocd_operator.Namespaces.ClusterSecret.{
  without_namespace, local_secret, with_data, delete_from_local, delete_managed_namespace,
}
use argocd_operator.Namespaces.ClusterSecret.Local.{
  AnyLocal, AnyLocal-none, AnyLocal-some, NamesNot, NamesNot-none, NamesNot-some,
  local_secret-updated, namespaces-insert, source-without_namespace,
}

module _ (c : Cluster) (l : IsLawful c) (u : Setup) (s : c.State) (owner source : String)
    (named : source ≢ "") where
  delete_old :
      (xs : List Secret) (x : Secret) (old : String)
      → c.cluster_secrets s owner ≡ listed xs
      → local_secret xs ≡ some x
      → lookup "namespaces" x.data_map ≡ some old
      → (delete_from_local c u s owner source (some x)).1 ≡ done
      → AnyLocal
          (NamesNot source)
          (c.stored (delete_from_local c u s owner source (some x)).0 owner)
  unfolding delete_from_local
  delete_old xs x old h k m = go (old == without_namespace source old) refl
    where
      go :
          (b : Bool)
          → (old == without_namespace source old) ≡ b
          → (delete_from_local c u s owner source (some x)).1 ≡ done
          → AnyLocal
              (NamesNot source)
              (c.stored (delete_from_local c u s owner source (some x)).0 owner)
      go true e =
          rw (delete_from_local, m, e)
            (λ w.
              AnyLocal-some (NamesNot source) (c.stored s owner) x
                (ap local_secret (l.secrets-listed s owner xs h).0 ∙ k)
                (NamesNot-some source x old m
                  (ground (arith, source-without_namespace source old))))
      go false e =
          rw (delete_from_local, m, e)
            (λ w.
              let y = with_data (insert "namespaces" (without_namespace source old) x.data_map) x in
              AnyLocal-some (NamesNot source) (c.stored (c.update_secret s y).0 owner) y
                (local_secret-updated c l s owner xs x (without_namespace source old) h k
                  (ground arith))
                (NamesNot-some source y (without_namespace source old)
                  (namespaces-insert x.data_map (without_namespace source old))
                  (source-without_namespace source old named)))

  -- The data of the local secret.
  delete_some :
      (xs : List Secret) (x : Secret)
      → c.cluster_secrets s owner ≡ listed xs
      → local_secret xs ≡ some x
      → (delete_from_local c u s owner source (some x)).1 ≡ done
      → AnyLocal
          (NamesNot source)
          (c.stored (delete_from_local c u s owner source (some x)).0 owner)
  unfolding delete_from_local
  delete_some xs x h k = go (lookup "namespaces" x.data_map) refl
    where
      go :
          (o : Option String)
          → lookup "namespaces" x.data_map ≡ o
          → (delete_from_local c u s owner source (some x)).1 ≡ done
          → AnyLocal
              (NamesNot source)
              (c.stored (delete_from_local c u s owner source (some x)).0 owner)
      go (some old) m = delete_old xs x old h k m
      go none m =
          rw (delete_from_local, m)
            (λ w.
              AnyLocal-some (NamesNot source) (c.stored s owner) x
                (ap local_secret (l.secrets-listed s owner xs h).0 ∙ k) (NamesNot-none source x m))

  delete_listed :
      (xs : List Secret)
      → c.cluster_secrets s owner ≡ listed xs
      → (delete_from_local c u s owner source (local_secret xs)).1 ≡ done
      → AnyLocal
          (NamesNot source)
          (c.stored (delete_from_local c u s owner source (local_secret xs)).0 owner)
  unfolding delete_from_local
  delete_listed xs h = go (local_secret xs) refl
    where
      go :
          (o : Option Secret)
          → local_secret xs ≡ o
          → (delete_from_local c u s owner source (local_secret xs)).1 ≡ done
          → AnyLocal
              (NamesNot source)
              (c.stored (delete_from_local c u s owner source (local_secret xs)).0 owner)
      go (some x) k = rw k (delete_some xs x h k)
      go none k = rw k (λ w.
          AnyLocal-none (NamesNot source) (c.stored s owner)
            (ap local_secret (l.secrets-listed s owner xs h).0 ∙ k))

  -- If the server obeys its contract and the namespace's name is not empty: when the removal of the
  -- namespace reports no error, the local cluster secret that the server then holds in the owner's
  -- namespace, if it holds one with a list of namespaces, does not list that namespace.
  pub delete_managed_namespace-NamesNot :
      (delete_managed_namespace c u s owner source).1 ≡ done
      → AnyLocal (NamesNot source) (c.stored (delete_managed_namespace c u s owner source).0 owner)
  unfolding delete_managed_namespace
  delete_managed_namespace-NamesNot = go (c.cluster_secrets s owner) refl
    where
      go :
          (r : Listing Secret)
          → c.cluster_secrets s owner ≡ r
          → (delete_managed_namespace c u s owner source).1 ≡ done
          → AnyLocal
              (NamesNot source)
              (c.stored (delete_managed_namespace c u s owner source).0 owner)
      go (listed xs) h = rw (delete_managed_namespace, h) (delete_listed xs h)
      go (unlisted e) h = rw (delete_managed_namespace, h) (λ w. absurd (ground arith))
