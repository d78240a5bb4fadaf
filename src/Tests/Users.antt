-- ===== src/Tests/Users.antt =====
-- Local users: reconciliations on the server in memory, and the theorems on them.
use argocd_operator.Base.{
  String, ◌≡◌, refl, ◌≢◌, ◌⊎◌, true, false, string_eq, ℕ_eq, none, some, [], ◌∷◌, ℤ, pos, arith,
}
use text.Mathlib.TextEquality.{eq_iff}
use argocd_operator.Base.Map.{Map, lookup, insert, erase}
use argocd_operator.Base.Text.{has_suffix, has_part, drop, trim_space}
use argocd_operator.Base.{found, if◌then◌else◌, inl, Bool, true, false, ◌<>◌}
use argocd_operator.LocalUsers.Cluster.{is_at}
use argocd_operator.LocalUsers.Success.{IsServing, cleanup_local_user-ok}
use argocd_operator.LocalUsers.IssueSuccess.{CanIssue, issue_token-ok}
use argocd_operator.Names.{truncate_with_hash}
use argocd_operator.Spec.{ArgoCd, LocalUser}
use argocd_operator.LocalUsers.Timers.{
  Timer, Timers, new_timers, mark_stopped, stop_timer, start_or_restart_timer, stop_prefixed,
  cleanup_namespace_timers, fires,
}
use argocd_operator.LocalUsers.Cluster.{Secret, Draws, Sys, ok, ◌>>=◌, ◌>>◌}
use argocd_operator.LocalUsers.Tokens.{
  argocd_secret_name, secret_name, user_data, new_secret, create_jwt_token, signing_key,
  user_secret, add_token, write_user_secret, issue_token,
}
use argocd_operator.LocalUsers.Cleanup.{
  in_extra_config, legacy_users, remove_token, delete_secret, cleanup_local_user,
  cleanup_undeclared, cleanup_listed, cleanup_local_users,
}
use argocd_operator.LocalUsers.Reconcile.{
  stops_timer, token_settings, schedule_new, is_stale, needs_token, update_auto_renew,
  schedule_existing, renew, reconcile_existing, reconcile_reply, reconcile_secret,
  reconcile_local_user, reconcile_declared, reconcile_latest, reconcile_local_users,
}
use argocd_operator.LocalUsers.TimerLaws.{
  IsConsistent, new_timers-IsConsistent, lookup-cleanup_namespace_timers,
}
use argocd_operator.LocalUsers.TimerSafety.{
  reconcile_local_users-IsConsistent, here, next, reconcile, fires_registered_of_Reach,
}
use argocd_operator.LocalUsers.CleanupLaws.{
  HasNoToken, cleanup_local_user-Cleaned, cleanup_local_user-InOrder,
}
use argocd_operator.LocalUsers.TokenLaws.{Issued, issue_token-Issued}
use argocd_operator.LocalUsers.Stability.{IsCurrent, reconcile_local_user-IsCurrent}
use argocd_operator.Tests.Memory.{State, memory, memory-IsLawful, runtime, runtime-IsSound}

abbrev alice : LocalUser
alice = record {
  name = "alice";
  enabled = none;
  api_key = none;
  login = false;
  token_lifetime = "1h";
  auto_renew_token = none;
}

abbrev cr : ArgoCd
cr = record {
  name = "argocd";
  namespace = "ns";
  controller_enabled = none;
  redis_enabled = none;
  redis_remote = none;
  repo_enabled = none;
  server_enabled = none;
  sso = none;
  ha_enabled = false;
  notifications_enabled = false;
  server_route_enabled = false;
  server_ingress_enabled = false;
  extra_config = [];
  local_users = alice ∷ [];
}

abbrev argocd_secret : Map String String → Secret
argocd_secret entries = record {
  name = "argocd-secret";
  namespace = "ns";
  labels = [];
  data_map = ("server.secretkey", "key") ∷ entries;
}

abbrev start : State
start = (argocd_secret [] ∷ [], cr ∷ [])

abbrev draws : Draws ℤ
draws = record {
  checked_at = pos 1;
  issued_at = pos 2;
  scheduled_at = pos 3;
  unique_id = some "id";
}

abbrev first_run : Sys memory
first_run = (reconcile_local_users memory runtime cr (λ n. draws) (start, new_timers)).0

first_run-fires : fires 0 first_run.1 ≡ true
unfolding mark_stopped stop_timer start_or_restart_timer stop_prefixed cleanup_namespace_timers
    fires ◌>>=◌ ◌>>◌ secret_name truncate_with_hash new_secret create_jwt_token signing_key
    user_secret add_token write_user_secret issue_token in_extra_config legacy_users remove_token
    delete_secret cleanup_local_user cleanup_undeclared cleanup_listed cleanup_local_users
    stops_timer token_settings schedule_new is_stale needs_token update_auto_renew schedule_existing
    renew reconcile_existing reconcile_reply reconcile_secret reconcile_local_user
    reconcile_declared reconcile_latest reconcile_local_users lookup insert erase has_suffix
    has_part drop trim_space string_eq ℕ_eq
first_run-fires = refl

fires_registered_of_Reach_example :
    (timer : Timer) × (lookup 0 first_run.1.heap ≡ some timer)
    × (lookup timer.key first_run.1.table ≡ some 0)
fires_registered_of_Reach_example =
    fires_registered_of_Reach memory runtime 0 (next here (reconcile cr (λ n. draws)))
      first_run-fires

reconcile_local_users-IsConsistent_example : IsConsistent first_run.1
reconcile_local_users-IsConsistent_example =
    reconcile_local_users-IsConsistent memory runtime cr (λ n. draws) start new_timers
      new_timers-IsConsistent

short_name : truncate_with_hash runtime.hash (secret_name alice) 63 ≡ secret_name alice
unfolding truncate_with_hash secret_name
short_name = refl

issued-ok :
    (issue_token memory runtime cr alice "1h" (pos 3600) draws (start, new_timers)).1 ≡ ok tt
unfolding mark_stopped stop_timer start_or_restart_timer stop_prefixed cleanup_namespace_timers
    fires ◌>>=◌ ◌>>◌ secret_name truncate_with_hash new_secret create_jwt_token signing_key
    user_secret add_token write_user_secret issue_token in_extra_config legacy_users remove_token
    delete_secret cleanup_local_user cleanup_undeclared cleanup_listed cleanup_local_users
    stops_timer token_settings schedule_new is_stale needs_token update_auto_renew schedule_existing
    renew reconcile_existing reconcile_reply reconcile_secret reconcile_local_user
    reconcile_declared reconcile_latest reconcile_local_users lookup insert erase has_suffix
    has_part drop trim_space string_eq ℕ_eq
issued-ok = refl

issue_token-Issued_example :
    Issued memory runtime cr alice "1h"
      (pos 3600)
      draws
      (issue_token memory runtime cr alice "1h" (pos 3600) draws (start, new_timers)).0.0
issue_token-Issued_example =
    issue_token-Issued memory runtime memory-IsLawful runtime-IsSound cr alice short_name "1h"
      (pos 3600) draws start new_timers issued-ok

abbrev alice_secret : Secret
alice_secret = record {
  name = "alice-local-user";
  namespace = "ns";
  labels = [];
  data_map = user_data "alice" (runtime.format_int (pos 9)) "1h" "true" "jwt";
}

abbrev with_token : State
with_token =
    (argocd_secret (("accounts.alice.tokens", "[token]") ∷ []) ∷ alice_secret ∷ [], cr ∷ [])

abbrev timers : Timers
timers = record {
  table = ("ns/alice", 0) ∷ ("nsx/bob", 1) ∷ [];
  heap =
      (1, record { key = "nsx/bob"; delay = pos 1; stopped = false })
      ∷ (0, record { key = "ns/alice"; delay = pos 1; stopped = false })
      ∷ [];
  next = 2;
}

alice-IsCurrent : IsCurrent memory runtime cr alice draws with_token timers
unfolding mark_stopped stop_timer start_or_restart_timer stop_prefixed cleanup_namespace_timers
    fires ◌>>=◌ ◌>>◌ secret_name truncate_with_hash new_secret create_jwt_token signing_key
    user_secret add_token write_user_secret issue_token in_extra_config legacy_users remove_token
    delete_secret cleanup_local_user cleanup_undeclared cleanup_listed cleanup_local_users
    stops_timer token_settings schedule_new is_stale needs_token update_auto_renew schedule_existing
    renew reconcile_existing reconcile_reply reconcile_secret reconcile_local_user
    reconcile_declared reconcile_latest reconcile_local_users lookup insert erase has_suffix
    has_part drop trim_space string_eq ℕ_eq
alice-IsCurrent = record {
  lifetime = "1h";
  duration = pos 3600;
  expires_at = pos 9;
  jwt = "jwt";
  secret = alice_secret;
  argocd_secret = argocd_secret (("accounts.alice.tokens", "[token]") ∷ []);
  tokens = "[token]";
  settings = refl;
  enabled = refl;
  has_secret = refl;
  records = refl;
  has_argocd_secret = refl;
  has_tokens = refl;
  bounded = λ h. absurd (ground arith);
  fresh = λ h k. refl;
  scheduled = λ h k l. ground arith;
  unscheduled = λ h. absurd (ground arith);
}

reconcile_local_user-IsCurrent_example :
    reconcile_local_user memory runtime cr alice draws (with_token, timers)
    ≡ ((with_token, timers), ok tt)
reconcile_local_user-IsCurrent_example =
    reconcile_local_user-IsCurrent memory runtime runtime-IsSound cr alice draws with_token timers
      alice-IsCurrent

other_secret : alice_secret.name ≢ argocd_secret_name
other_secret = ground (arith, eq_iff "alice-local-user" "argocd-secret")

cleanup-ok :
    (cleanup_local_user memory cr "alice" (some alice_secret) (with_token, timers)).1 ≡ ok tt
unfolding mark_stopped stop_timer start_or_restart_timer stop_prefixed cleanup_namespace_timers
    fires ◌>>=◌ ◌>>◌ secret_name truncate_with_hash new_secret create_jwt_token signing_key
    user_secret add_token write_user_secret issue_token in_extra_config legacy_users remove_token
    delete_secret cleanup_local_user cleanup_undeclared cleanup_listed cleanup_local_users
    stops_timer token_settings schedule_new is_stale needs_token update_auto_renew schedule_existing
    renew reconcile_existing reconcile_reply reconcile_secret reconcile_local_user
    reconcile_declared reconcile_latest reconcile_local_users lookup insert erase has_suffix
    has_part drop trim_space string_eq ℕ_eq
cleanup-ok = refl

not_in_extra_config : in_extra_config cr "alice" ≡ false
unfolding in_extra_config has_part lookup string_eq
not_in_extra_config = refl

cleanup_local_user-Cleaned_example :
    (memory.stored
        (cleanup_local_user memory cr "alice" (some alice_secret) (with_token, timers)).0.0
        "ns"
        "alice-local-user"
      ≡ none)
    × (in_extra_config cr "alice" ≡ false
        → HasNoToken memory
            (cleanup_local_user memory cr "alice" (some alice_secret) (with_token, timers)).0.0
            "ns"
            "alice")
cleanup_local_user-Cleaned_example =
    cleanup_local_user-Cleaned memory memory-IsLawful cr "alice" alice_secret with_token timers
      other_secret cleanup-ok

cleanup_local_user-InOrder_example :
    (memory.stored
        (cleanup_local_user memory cr "alice" (some alice_secret) (with_token, timers)).0.0
        "ns"
        "alice-local-user"
      ≡ some alice_secret)
    ⊎ HasNoToken memory
        (cleanup_local_user memory cr "alice" (some alice_secret) (with_token, timers)).0.0
        "ns"
        "alice"
unfolding string_eq
cleanup_local_user-InOrder_example =
    cleanup_local_user-InOrder memory memory-IsLawful cr "alice" alice_secret with_token timers
      other_secret not_in_extra_config

lookup-cleanup_namespace_timers_example :
    lookup "nsx/bob" (cleanup_namespace_timers "ns" timers).table ≡ some 1
unfolding lookup string_eq
lookup-cleanup_namespace_timers_example = lookup-cleanup_namespace_timers "nsx/bob" "ns" timers

start-CanIssue : CanIssue memory runtime cr alice draws start
unfolding string_eq secret_name lookup
start-CanIssue = record {
  answers = λ e h. ground arith;
  argocd_secret = argocd_secret [];
  finds = refl;
  key = "key";
  has_key = refl;
  creates = λ t x. refl;
  updates = λ t x. refl;
  next = λ x. if is_at x "ns" "argocd-secret" then x else argocd_secret [];
  finds_created = λ x. finds_next x (is_at x "ns" "argocd-secret") refl;
  finds_updated = λ x. finds_next x (is_at x "ns" "argocd-secret") refl;
  id = "id";
  has_id = refl;
  owned = λ x. x;
  owns = λ x. refl;
  signed = λ claims. claims.subject <> "key";
  signs = λ claims. refl;
  encoded = λ tokens. "[token]";
  encodes = λ tokens. refl;
}
  where
    finds_next :
        (x : Secret) (b : Bool)
        → is_at x "ns" "argocd-secret" ≡ b
        → memory.get (x ∷ argocd_secret [] ∷ [], cr ∷ []) "ns" "argocd-secret"
          ≡ found (if is_at x "ns" "argocd-secret" then x else argocd_secret [])
    finds_next x true e = rw e refl
    finds_next x false e = rw e refl

issue_token-ok_example :
    (issue_token memory runtime cr alice "1h" (pos 3600) draws (start, new_timers)).1 ≡ ok tt
issue_token-ok_example =
    issue_token-ok memory runtime cr alice draws start new_timers start-CanIssue "1h" (pos 3600)

with_token-IsServing : IsServing memory cr with_token
unfolding string_eq
with_token-IsServing = record {
  argocd_secret = argocd_secret (("accounts.alice.tokens", "[token]") ∷ []);
  finds = refl;
  updates = λ t x. refl;
  deletes = λ t x. inl refl;
}

cleanup_local_user-ok_example :
    (cleanup_local_user memory cr "alice" (some alice_secret) (with_token, timers)).1 ≡ ok tt
cleanup_local_user-ok_example =
    cleanup_local_user-ok memory cr "alice" (some alice_secret) with_token timers
      with_token-IsServing
