-- ===== src/Status/Components.antt =====
-- The statuses of the components: reconcileStatusApplicationController,
-- reconcileStatusApplicationSetController, reconcileStatusSSO, reconcileStatusRedis,
-- reconcileStatusRepo, reconcileStatusServer and reconcileStatusNotifications.
use argocd_operator.Base.{
  String, Bool, false, not, ◌&&◌, ◌||◌, ◌==◌, string_eq, ℕ_eq, if◌then◌else◌, Option, none, some,
  List, [], ◌∷◌, found, absent, refused, Run, done, failed, panicked,
}
use argocd_operator.Condition.{Condition, condition_true, configuration_error, remove_condition}
use argocd_operator.Spec.{ArgoCd, Dex, provider_dex, provider_keycloak, lowered}
use argocd_operator.Status.{ArgoCdStatus, Deployment, Snapshot}

-- The loop over the conditions of a deployment.
abbrev pub replica_failure : List (String × String) → Bool
replica_failure [] = false
replica_failure ((type, status) ∷ cs) =
    (type == "ReplicaFailure" && status == "True") || replica_failure cs

-- The status of a deployment that exists, as the same lines compute it in five functions.
abbrev pub deployment_status : Deployment → String
deployment_status d = elim d.replicas [
  | none ↦ "Pending"
  | some n ↦
      if d.ready_replicas == n
      then "Running"
      else (if replica_failure d.conditions then "Failed" else "Pending")
]

module _ (snapshot : Snapshot) (cr : ArgoCd) where
  unfoldable pub reconcile_application_controller : ArgoCdStatus → Run ArgoCdStatus
  reconcile_application_controller s = elim (snapshot.stateful_set "application-controller") [
    | refused e ↦ (record s { application_controller = "Failed" }, failed e)
    | absent ↦ (record s { application_controller = "Unknown" }, done)
    | found ss ↦ (
      record s {
        application_controller = elim ss.replicas [
          | none ↦ "Pending"
          | some n ↦ if ss.ready_replicas == n then "Running" else "Pending"
        ];
      },
      done,
    )
  ]

  unfoldable pub reconcile_application_set_controller : ArgoCdStatus → Run ArgoCdStatus
  reconcile_application_set_controller s = elim (snapshot.deployment "applicationset-controller") [
    | refused e ↦ (record s { application_set_controller = "Failed" }, failed e)
    | absent ↦ (record s { application_set_controller = "Unknown" }, done)
    | found d ↦ (record s { application_set_controller = deployment_status d }, done)
  ]

  unfoldable pub reconcile_repo : ArgoCdStatus → Run ArgoCdStatus
  reconcile_repo s = elim (snapshot.deployment "repo-server") [
    | refused e ↦ (record s { repo = "Failed" }, failed e)
    | absent ↦ (record s { repo = "Unknown" }, done)
    | found d ↦ (record s { repo = deployment_status d }, done)
  ]

  unfoldable pub reconcile_server : ArgoCdStatus → Run ArgoCdStatus
  reconcile_server s = elim (snapshot.deployment "server") [
    | refused e ↦ (record s { server = "Failed" }, failed e)
    | absent ↦ (record s { server = "Unknown" }, done)
    | found d ↦ (record s { server = deployment_status d }, done)
  ]

  -- The status is cleared, after the look-up, where notifications are disabled.
  unfoldable pub reconcile_notifications : ArgoCdStatus → Run ArgoCdStatus
  reconcile_notifications s = elim (snapshot.deployment "notifications-controller") [
    | refused e ↦ (record s { notifications_controller = "Failed" }, failed e)
    | absent ↦ (
      record s {
        notifications_controller = if not cr.notifications_enabled then "" else "Unknown";
      },
      done,
    )
    | found d ↦ (
      record s {
        notifications_controller = if not cr.notifications_enabled then "" else deployment_status d;
      },
      done,
    )
  ]

  -- Without high availability Redis is a deployment. With it, it is a stateful set, whose replicas are
  -- read through the pointer with no test for nil.
  unfoldable pub reconcile_redis : ArgoCdStatus → Run ArgoCdStatus
  reconcile_redis s =
      if not cr.ha_enabled
      then (elim (snapshot.deployment "redis") [
        | refused e ↦ (record s { redis = "Failed" }, failed e)
        | absent ↦ (record s { redis = "Unknown" }, done)
        | found d ↦ (record s { redis = deployment_status d }, done)
      ])
      else (elim (snapshot.stateful_set "redis-ha-server") [
        | refused e ↦ (s, failed e)
        | absent ↦ (record s { redis = "Unknown" }, done)
        | found ss ↦ elim ss.replicas [
          | none ↦ (s, panicked)
          | some n ↦
              (record s { redis = if ss.ready_replicas == n then "Running" else "Pending" }, done)
        ]
      ])

  -- The loop over `cr.Status.Conditions`.
  abbrev has_configuration_error : List Condition → Bool
  has_configuration_error [] = false
  has_configuration_error (c ∷ cs) =
      (c.type == configuration_error && c.status == condition_true) || has_configuration_error cs

  -- `cr.Spec.SSO.Dex != nil && !cr.Spec.SSO.Dex.OpenShiftOAuth`
  abbrev plain_dex : Option Dex → Bool
  plain_dex none = false
  plain_dex (some d) = not d.open_shift_oauth

  abbrev dex_status : ArgoCdStatus × List Condition → Run (ArgoCdStatus × List Condition)
  dex_status (s, conditions) =
      if has_configuration_error conditions
      then ((record s { sso = "Failed" }, conditions), done)
      else (elim (snapshot.deployment "dex-server") [
        | refused e ↦ ((record s { sso = "Failed" }, conditions), failed e)
        | absent ↦ ((record s { sso = "Unknown" }, conditions), done)
        | found d ↦ ((record s { sso = deployment_status d }, conditions), done)
      ])

  -- The second part of the state is `cr.Status.Conditions`.
  unfoldable pub reconcile_sso_status :
      ArgoCdStatus × List Condition → Run (ArgoCdStatus × List Condition)
  unfolding remove_condition
  reconcile_sso_status (s, conditions) = elim cr.sso [
    | none ↦ ((record s { sso = "Unknown" }, remove_condition configuration_error conditions), done)
    | some sso ↦
        if lowered sso == provider_dex
        then dex_status (
          s,
          if plain_dex sso.dex then remove_condition configuration_error conditions else conditions,
        )
        else (if lowered sso == provider_keycloak
            then ((record s { sso = "Failed" }, conditions), done)
            else (
              (record s { sso = "Unknown" }, remove_condition configuration_error conditions),
              done,
            ))
  ]
