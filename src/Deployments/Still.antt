-- ===== src/Deployments/Still.antt =====
-- A deployment that is as wanted is left alone.
use argocd_operator.Base.{String, string_eq, ◌≡◌, refl, ap, ◌∙◌, Option, none, some, [], arith}
use argocd_operator.Deployments.{
  Kinds, Container, Deployment, Draft, node_selector_field, tolerations_field,
  image_pull_policy_field, container_command_field, container_env_field, volumes_field,
  replicas_field, container_volume_mounts_field, container_resources_field,
  container_security_context_field, pod_security_context_field, service_account_name_field,
  container_args_field, labels_field, pod_labels_field, selector_field, update_node_placement,
  update_image, update_container, update_size, update_limits, update_pod, update_labels,
  update_fields,
}
use argocd_operator.Deployments.Place.{target, sync-still}

module _ (k : Kinds) (desired : Deployment k) (wanted : Container k) (d : Deployment k)
    (c : Container k) where
  abbrev reached : Deployment k × Container k
  reached = target desired wanted d c

  update_node_placement-still :
      (draft : Draft k)
      → draft ≡ (reached, [])
      → update_node_placement k desired draft ≡ (reached, [])
  unfolding update_node_placement
  update_node_placement-still draft e =
      sync-still k (tolerations_field k) desired.tolerations _ reached [] refl
        (sync-still k (node_selector_field k) desired.node_selector _ reached [] refl e)

  update_container-still :
      (draft : Draft k) → draft ≡ (reached, []) → update_container k wanted draft ≡ (reached, [])
  unfolding update_container
  update_container-still draft e =
      sync-still k (container_env_field k) wanted.env _ reached [] refl (
        sync-still k (container_command_field k) wanted.command _ reached [] refl
          (sync-still k (image_pull_policy_field k) wanted.image_pull_policy _ reached [] refl e))

  update_size-still :
      (draft : Draft k) → draft ≡ (reached, []) → update_size k desired draft ≡ (reached, [])
  unfolding update_size
  update_size-still draft e =
      sync-still k (replicas_field k) desired.replicas _ reached [] refl
        (sync-still k (volumes_field k) desired.volumes _ reached [] refl e)

  update_limits-still :
      (draft : Draft k) → draft ≡ (reached, []) → update_limits k wanted draft ≡ (reached, [])
  unfolding update_limits
  update_limits-still draft e =
      sync-still k (container_security_context_field k) wanted.security_context _ reached [] refl (
        sync-still k (container_resources_field k) wanted.resources _ reached [] refl
          (sync-still k (container_volume_mounts_field k) wanted.volume_mounts _ reached [] refl e))

  update_pod-still :
      (draft : Draft k) → draft ≡ (reached, []) → update_pod k desired wanted draft ≡ (reached, [])
  unfolding update_pod
  update_pod-still draft e = sync-still k (container_args_field k) wanted.args _ reached [] refl (
      sync-still k (service_account_name_field k) desired.service_account_name _ reached [] refl
        (sync-still k (pod_security_context_field k) desired.security_context _ reached [] refl e))

  update_labels-still :
      (draft : Draft k) → draft ≡ (reached, []) → update_labels k desired draft ≡ (reached, [])
  unfolding update_labels
  update_labels-still draft e = sync-still k (selector_field k) desired.selector _ reached [] refl (
      sync-still k (pod_labels_field k) desired.pod_labels _ reached [] refl
        (sync-still k (labels_field k) desired.labels _ reached [] refl e))

  update_image-still : (now : String) → update_image k now wanted (reached, []) ≡ some (reached, [])
  unfolding update_image
  update_image-still now = ground arith

  pub update_fields-still :
      (now : String) → update_fields k now desired wanted reached.0 reached.1 ≡ some (reached, [])
  unfolding update_fields
  update_fields-still now =
      ap (λ (o : Option (Draft k)). the_rest o)
        (ap (update_image k now wanted) (update_node_placement-still (reached, []) refl)
          ∙ update_image-still now)
      ∙ ap some (
          update_labels-still _ (
            update_pod-still _ (
              update_limits-still _
                (update_size-still _ (update_container-still (reached, []) refl)))))
    where
      the_rest : Option (Draft k) → Option (Draft k)
      the_rest o = elim o [
        | none ↦ none
        | some draft ↦ some (
            update_labels k desired (
              update_pod k desired wanted
                (update_limits k wanted (update_size k desired (update_container k wanted draft)))))
      ]
