-- ===== src/LocalUsers.antt =====
-- controllers/argocd/localusers.go: the tokens of the local users, their Secrets and their renewal
-- timers.
pub mod Timers
pub mod Cluster
pub mod Tokens
pub mod Cleanup
pub mod Reconcile
pub mod TimerLaws
pub mod TimerSafety
pub mod CleanupLaws
pub mod Success
pub mod TokenLaws
pub mod IssueSuccess
pub mod Stability
