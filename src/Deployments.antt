-- ===== src/Deployments.antt =====
-- reconcileDeploymentHelper of controllers/argocd/util.go with updateNodePlacement of
-- controllers/argocd/deployment.go, which bring a deployment to the state that is wanted of it.
pub mod Place
pub mod Still
pub mod Laws
use argocd_operator.Base.{
  String, ◌<>◌, Bool, true, false, Eq, ◌==◌, string_eq, if◌then◌else◌, Option, none, some, List, [],
  ◌∷◌, ◌++◌, Reply, found, absent, refused, Run, done, failed, panicked, Outcome, ◌⊎◌, inl, inr,
}
use argocd_operator.Namespaces.{Error, ended}

-- The types of Kubernetes that are compared with reflect.DeepEqual and copied, and the labels, where
-- `set_label` is none for a nil map, in which Go cannot write.
pub record Kinds : Type 1 where
  pub Value : Type 0
  pub value_eq : Eq Value
  pub Labels : Type 0
  pub labels_eq : Eq Labels
  pub set_label : String → String → Labels → Option Labels

pub record Container (k : Kinds) : Type 0 where
  pub image : String
  pub image_pull_policy : String
  pub command : k.Value
  pub args : k.Value
  pub env : k.Value
  pub volume_mounts : k.Value
  pub resources : k.Value
  pub security_context : k.Value
  pub rest : k.Value

-- appsv1.Deployment, with what is not compared in `rest`.
pub record Deployment (k : Kinds) : Type 0 where
  pub name : String
  pub labels : k.Labels
  pub selector : k.Value
  pub replicas : k.Value
  pub pod_labels : k.Labels
  pub node_selector : k.Value
  pub tolerations : k.Value
  pub volumes : k.Value
  pub security_context : k.Value
  pub service_account_name : String
  pub containers : List (Container k)
  pub rest : k.Value

module _ (k : Kinds) where
  -- A deployment with the first of its containers, and the changes so far.
  abbrev pub Draft : Type 0
  Draft = (Deployment k × Container k) × List String

  -- A field that is compared, by its place in the deployment and its first container.
  pub record Field (A : Type 0) : Type 0 where
    pub equality : Eq A
    pub what : String
    pub get : Deployment k × Container k → A
    pub put : A → Deployment k × Container k → Deployment k × Container k

  -- `if !reflect.DeepEqual(existing, desired) { existing = desired; changes = append(changes, ...) }`
  abbrev pub sync : {A : Type 0} → Field A → A → Draft → Draft
  sync f wanted (d, changes) =
      if ◌==◌ ⦃e = f.equality⦄ (f.get d) wanted
      then (d, changes)
      else (f.put wanted d, changes ++ (f.what ∷ []))

  abbrev pub node_selector_field : Field k.Value
  node_selector_field = record {
    equality = k.value_eq;
    what = "node selector";
    get = λ (d, c). d.node_selector;
    put = λ v (d, c). (record d { node_selector = v }, c);
  }

  abbrev pub tolerations_field : Field k.Value
  tolerations_field = record {
    equality = k.value_eq;
    what = "tolerations";
    get = λ (d, c). d.tolerations;
    put = λ v (d, c). (record d { tolerations = v }, c);
  }

  abbrev pub image_pull_policy_field : Field String
  image_pull_policy_field = record {
    equality = string_eq;
    what = "image pull policy";
    get = λ (d, c). c.image_pull_policy;
    put = λ v (d, c). (d, record c { image_pull_policy = v });
  }

  abbrev pub container_command_field : Field k.Value
  container_command_field = record {
    equality = k.value_eq;
    what = "container command";
    get = λ (d, c). c.command;
    put = λ v (d, c). (d, record c { command = v });
  }

  abbrev pub container_env_field : Field k.Value
  container_env_field = record {
    equality = k.value_eq;
    what = "container env";
    get = λ (d, c). c.env;
    put = λ v (d, c). (d, record c { env = v });
  }

  abbrev pub volumes_field : Field k.Value
  volumes_field = record {
    equality = k.value_eq;
    what = "volumes";
    get = λ (d, c). d.volumes;
    put = λ v (d, c). (record d { volumes = v }, c);
  }

  abbrev pub replicas_field : Field k.Value
  replicas_field = record {
    equality = k.value_eq;
    what = "replicas";
    get = λ (d, c). d.replicas;
    put = λ v (d, c). (record d { replicas = v }, c);
  }

  abbrev pub container_volume_mounts_field : Field k.Value
  container_volume_mounts_field = record {
    equality = k.value_eq;
    what = "container volume mounts";
    get = λ (d, c). c.volume_mounts;
    put = λ v (d, c). (d, record c { volume_mounts = v });
  }

  abbrev pub container_resources_field : Field k.Value
  container_resources_field = record {
    equality = k.value_eq;
    what = "container resources";
    get = λ (d, c). c.resources;
    put = λ v (d, c). (d, record c { resources = v });
  }

  abbrev pub container_security_context_field : Field k.Value
  container_security_context_field = record {
    equality = k.value_eq;
    what = "container security context";
    get = λ (d, c). c.security_context;
    put = λ v (d, c). (d, record c { security_context = v });
  }

  abbrev pub pod_security_context_field : Field k.Value
  pod_security_context_field = record {
    equality = k.value_eq;
    what = "pod security context";
    get = λ (d, c). d.security_context;
    put = λ v (d, c). (record d { security_context = v }, c);
  }

  abbrev pub service_account_name_field : Field String
  service_account_name_field = record {
    equality = string_eq;
    what = "service account name";
    get = λ (d, c). d.service_account_name;
    put = λ v (d, c). (record d { service_account_name = v }, c);
  }

  abbrev pub container_args_field : Field k.Value
  container_args_field = record {
    equality = k.value_eq;
    what = "container args";
    get = λ (d, c). c.args;
    put = λ v (d, c). (d, record c { args = v });
  }

  abbrev pub labels_field : Field k.Labels
  labels_field = record {
    equality = k.labels_eq;
    what = "labels";
    get = λ (d, c). d.labels;
    put = λ v (d, c). (record d { labels = v }, c);
  }

  abbrev pub pod_labels_field : Field k.Labels
  pod_labels_field = record {
    equality = k.labels_eq;
    what = "pod labels";
    get = λ (d, c). d.pod_labels;
    put = λ v (d, c). (record d { pod_labels = v }, c);
  }

  abbrev pub selector_field : Field k.Value
  selector_field = record {
    equality = k.value_eq;
    what = "selector";
    get = λ (d, c). d.selector;
    put = λ v (d, c). (record d { selector = v }, c);
  }

  -- updateNodePlacement
  unfoldable pub update_node_placement : Deployment k → Draft → Draft
  update_node_placement desired draft =
      sync tolerations_field desired.tolerations
        (sync node_selector_field desired.node_selector draft)

  -- A new image also stamps the labels of the pods.
  unfoldable pub update_image : String → Container k → Draft → Option Draft
  update_image now wanted ((d, c), changes) =
      if c.image == wanted.image
      then some ((d, c), changes)
      else elim (k.set_label "image.upgraded" now d.pod_labels) [
        | none ↦ none
        | some labels ↦ some (
          (record d { pod_labels = labels }, record c { image = wanted.image }),
          changes ++ ("container image" ∷ []),
        )
      ]

  -- The comparisons that follow the image, of the container and of the deployment.
  unfoldable pub update_container : Container k → Draft → Draft
  update_container wanted draft = sync container_env_field wanted.env (
      sync container_command_field wanted.command
        (sync image_pull_policy_field wanted.image_pull_policy draft))

  unfoldable pub update_size : Deployment k → Draft → Draft
  update_size desired draft =
      sync replicas_field desired.replicas (sync volumes_field desired.volumes draft)

  unfoldable pub update_limits : Container k → Draft → Draft
  update_limits wanted draft = sync container_security_context_field wanted.security_context (
      sync container_resources_field wanted.resources
        (sync container_volume_mounts_field wanted.volume_mounts draft))

  unfoldable pub update_pod : Deployment k → Container k → Draft → Draft
  update_pod desired wanted draft = sync container_args_field wanted.args (
      sync service_account_name_field desired.service_account_name
        (sync pod_security_context_field desired.security_context draft))

  unfoldable pub update_labels : Deployment k → Draft → Draft
  update_labels desired draft =
      sync selector_field desired.selector
        (sync pod_labels_field desired.pod_labels (sync labels_field desired.labels draft))

  -- All comparisons; none is a panic.
  unfoldable pub update_fields :
      String → Deployment k → Container k → Deployment k → Container k → Option Draft
  unfolding update_node_placement update_image update_container update_size update_limits update_pod
      update_labels
  update_fields now desired wanted d c =
      elim (update_image now wanted (update_node_placement desired ((d, c), []))) [
        | none ↦ none
        | some draft ↦ some (
            update_labels desired (
              update_pod desired wanted
                (update_limits wanted (update_size desired (update_container wanted draft)))))
      ]

  -- The deployment as it is updated, with the changes. `Containers[0]` panics where there is none.
  unfoldable pub update_existing :
      String → Deployment k → Deployment k → Option (Deployment k × List String)
  unfolding update_fields
  update_existing now desired existing = elim existing.containers [
    | [] ↦ none
    | c ∷ cs ↦ elim desired.containers [
      | [] ↦ none
      | wanted ∷ _ ↦ elim (update_fields now desired wanted existing c) [
        | none ↦ none
        | some ((d, b), changes) ↦ some (record d { containers = b ∷ cs }, changes)
      ]
    ]
  ]

-- What the helper asks of the API server; the owner reference may fail.
pub record Api (k : Kinds) : Type 1 where
  pub State : Type 0
  pub get : State → String → Reply (Deployment k)
  pub create : State → Deployment k → State × Error
  pub update : State → Deployment k → State × Error
  pub delete : State → Deployment k → State × Error
  pub set_controller_reference : Deployment k → String ⊎ Deployment k

module _ (k : Kinds) (a : Api k) where
  abbrev write : a.State × Error → Run a.State
  write (s, e) = (s, ended e)

  abbrev update_found : String → Deployment k → Deployment k → a.State → Run a.State
  unfolding update_existing
  update_found now desired existing s = elim (update_existing k now desired existing) [
    | none ↦ (s, panicked)
    | some (d, changes) ↦ elim changes [ [] ↦ (s, done) | _ ∷ _ ↦ write (a.update s d) ]
  ]

  unfoldable pub reconcile_deployment : String → Deployment k → Bool → a.State → Run a.State
  unfolding update_found
  reconcile_deployment now desired enabled s = elim (a.get s desired.name) [
    | refused e ↦
        (s, failed ("failed to get the deployment associated with " <> desired.name <> " : " <> e))
    | absent ↦
        if enabled
        then elim (a.set_controller_reference desired) [
          | inl e ↦ (s, failed e)
          | inr owned ↦ write (a.create s owned)
        ]
        else (s, done)
    | found existing ↦
        if enabled then update_found now desired existing s else write (a.delete s existing)
  ]
