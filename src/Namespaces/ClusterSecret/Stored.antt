-- ===== src/Namespaces/ClusterSecret/Stored.antt =====
-- The cluster secret that the API server holds after it is reconciled.
use argocd_operator.Base.{string_eq}
use argocd_operator.Namespaces.{Cluster}
