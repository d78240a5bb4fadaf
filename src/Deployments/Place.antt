-- ===== src/Deployments/Place.antt =====
-- What each comparison of the helper makes of a deployment and its first container.
use argocd_operator.Base.{
  String, string_eq, ◌≡◌, refl, sym, ap, ◌∙◌, Option, none, some, List, [], arith,
}
use mathlib.Core.Option.{some-injective}
use argocd_operator.Deployments.{
  Kinds, Container, Deployment, Draft, Field, sync, node_selector_field, tolerations_field,
  image_pull_policy_field, container_command_field, container_env_field, volumes_field,
  replicas_field, container_volume_mounts_field, container_resources_field,
  container_security_context_field, pod_security_context_field, service_account_name_field,
  container_args_field, labels_field, pod_labels_field, selector_field, update_node_placement,
  update_image, update_container, update_size, update_limits, update_pod, update_labels,
  update_fields,
}

-- The existing deployment and its first container with every compared field as wanted.
abbrev pub target :
    {k : Kinds}
    → Deployment k
    → Container k
    → Deployment k
    → Container k
    → Deployment k × Container k
target desired wanted d c = (
  record desired { name = d.name; containers = d.containers; rest = d.rest },
  record wanted { rest = c.rest },
)

module _ (k : Kinds) where
  abbrev Place : Type 0
  Place = Deployment k × Container k

  -- Whatever the comparison gives, the field is as wanted afterwards.
  sync-place :
      {A : Type 0} (f : Field k A)
      → ((y : Place) → f.put (f.get y) y ≡ y)
      → (wanted : A) (draft : Draft k) (x : Place) → draft.0 ≡ x
      → (sync k f wanted draft).0 ≡ f.put wanted x
  sync-place f h wanted (d, changes) x e = ground (arith, h d, ap (f.put wanted) e)

  -- A field that is as wanted is left alone.
  pub sync-still :
      {A : Type 0} (f : Field k A) (wanted : A) (draft : Draft k) (x : Place)
      (changes : List String)
      → f.get x ≡ wanted
      → draft ≡ (x, changes)
      → sync k f wanted draft ≡ (x, changes)
  sync-still f wanted (d, cs) x changes h e = ground (arith, ap f.get (ap (λ (t : Draft k). t.0) e))

  update_node_placement-place :
      (desired : Deployment k) (draft : Draft k) (x : Place)
      → draft.0 ≡ x
      → (update_node_placement k desired draft).0 ≡ (
        record x.0 { node_selector = desired.node_selector; tolerations = desired.tolerations },
        x.1,
      )
  unfolding update_node_placement
  update_node_placement-place desired draft x e =
      sync-place (tolerations_field k) (λ y. refl) desired.tolerations _ _
        (sync-place (node_selector_field k) (λ y. refl) desired.node_selector _ _ e)

  update_container-place :
      (wanted : Container k) (draft : Draft k) (x : Place)
      → draft.0 ≡ x
      → (update_container k wanted draft).0 ≡ (
        x.0,
        record x.1 {
          image_pull_policy = wanted.image_pull_policy;
          command = wanted.command;
          env = wanted.env;
        },
      )
  unfolding update_container
  update_container-place wanted draft x e =
      sync-place (container_env_field k) (λ y. refl) wanted.env _ _
        (sync-place (container_command_field k) (λ y. refl) wanted.command _ _
          (sync-place (image_pull_policy_field k) (λ y. refl) wanted.image_pull_policy _ _ e))

  update_size-place :
      (desired : Deployment k) (draft : Draft k) (x : Place)
      → draft.0 ≡ x
      → (update_size k desired draft).0
        ≡ (record x.0 { volumes = desired.volumes; replicas = desired.replicas }, x.1)
  unfolding update_size
  update_size-place desired draft x e =
      sync-place (replicas_field k) (λ y. refl) desired.replicas _ _
        (sync-place (volumes_field k) (λ y. refl) desired.volumes _ _ e)

  update_limits-place :
      (wanted : Container k) (draft : Draft k) (x : Place)
      → draft.0 ≡ x
      → (update_limits k wanted draft).0 ≡ (
        x.0,
        record x.1 {
          volume_mounts = wanted.volume_mounts;
          resources = wanted.resources;
          security_context = wanted.security_context;
        },
      )
  unfolding update_limits
  update_limits-place wanted draft x e =
      sync-place (container_security_context_field k) (λ y. refl) wanted.security_context _ _
        (sync-place (container_resources_field k) (λ y. refl) wanted.resources _ _
          (sync-place (container_volume_mounts_field k) (λ y. refl) wanted.volume_mounts _ _ e))

  update_pod-place :
      (desired : Deployment k) (wanted : Container k) (draft : Draft k) (x : Place)
      → draft.0 ≡ x
      → (update_pod k desired wanted draft).0 ≡ (
        record x.0 {
          security_context = desired.security_context;
          service_account_name = desired.service_account_name;
        },
        record x.1 { args = wanted.args },
      )
  unfolding update_pod
  update_pod-place desired wanted draft x e =
      sync-place (container_args_field k) (λ y. refl) wanted.args _ _
        (sync-place (service_account_name_field k) (λ y. refl) desired.service_account_name _ _
          (sync-place (pod_security_context_field k) (λ y. refl) desired.security_context _ _ e))

  update_labels-place :
      (desired : Deployment k) (draft : Draft k) (x : Place)
      → draft.0 ≡ x
      → (update_labels k desired draft).0 ≡ (
        record x.0 {
          labels = desired.labels;
          pod_labels = desired.pod_labels;
          selector = desired.selector;
        },
        x.1,
      )
  unfolding update_labels
  update_labels-place desired draft x e =
      sync-place (selector_field k) (λ y. refl) desired.selector _ _
        (sync-place (pod_labels_field k) (λ y. refl) desired.pod_labels _ _
          (sync-place (labels_field k) (λ y. refl) desired.labels _ _ e))

  update_image-place :
      (now : String) (wanted : Container k) (draft out : Draft k)
      → update_image k now wanted draft ≡ some out
      → out.0 ≡ (
        record draft.0.0 { pod_labels = out.0.0.pod_labels },
        record draft.0.1 { image = wanted.image },
      )
  unfolding update_image
  update_image-place now wanted ((d, c), changes) out h = ground arith

  later-place :
      (desired : Deployment k) (wanted : Container k) (d : Deployment k) (c : Container k)
      (draft : Draft k) (labels : k.Labels)
      → draft.0 ≡ (
        record d {
          node_selector = desired.node_selector;
          tolerations = desired.tolerations;
          pod_labels = labels;
        },
        record c { image = wanted.image },
      )
      → (update_labels k desired (
          update_pod k desired wanted
            (update_limits k wanted (update_size k desired (update_container k wanted draft))))).0
        ≡ target desired wanted d c
  later-place desired wanted d c draft labels e = update_labels-place desired _ _ (
      update_pod-place desired wanted _ _ (
        update_limits-place wanted _ _
          (update_size-place desired _ _ (update_container-place wanted draft _ e))))

  pub update_fields-place :
      (now : String) (desired : Deployment k) (wanted : Container k) (d : Deployment k)
      (c : Container k) (out : Draft k)
      → update_fields k now desired wanted d c ≡ some out
      → out.0 ≡ target desired wanted d c
  unfolding update_fields
  update_fields-place now desired wanted d c out =
      go (update_image k now wanted (update_node_placement k desired ((d, c), []))) refl
    where
      go :
          (o : Option (Draft k))
          → update_image k now wanted (update_node_placement k desired ((d, c), [])) ≡ o
          → update_fields k now desired wanted d c ≡ some out
          → out.0 ≡ target desired wanted d c
      go none e = rw (update_fields, e) (λ h. absurd (ground arith))
      go (some draft) e =
          rw (update_fields, e)
            (λ h.
              ap (λ (t : Draft k). t.0) (sym (some-injective _ _ h))
              ∙ later-place desired wanted d c draft draft.0.0.pod_labels (
                  update_image-place now wanted (update_node_placement k desired ((d, c), [])) draft
                    e
                  ∙ ap
                      (λ (x : Place). (
                        record x.0 { pod_labels = draft.0.0.pod_labels },
                        record x.1 { image = wanted.image },
                      ))
                      (update_node_placement-place desired ((d, c), []) (d, c) refl)))
