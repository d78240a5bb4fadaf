-- ===== src/Api/Kube.antt =====
-- The types of the Kubernetes API modules that the specification holds and no conversion looks into,
-- with the zero values of those that a new object has.
use argocd_operator.Base.{Option, none, some}

pub record Kube : Type 1 where
  pub ClusterTrustBundleProjection : Type 0
  pub Condition : Type 0
  pub ConfigMapProjection : Type 0
  pub Container : Type 0
  pub Duration : Type 0
  pub EnvVar : Type 0
  pub HorizontalPodAutoscalerSpec : Type 0
  pub IngressTLS : Type 0
  pub ObjectMeta : Type 0
  pub PullPolicy : Type 0
  pub ResourceRequirements : Type 0
  pub SecretProjection : Type 0
  pub ServiceType : Type 0
  pub TLSConfig : Type 0
  pub Toleration : Type 0
  pub Volume : Type 0
  pub VolumeMount : Type 0
  pub WildcardPolicyType : Type 0
  pub zero_pull_policy : PullPolicy

-- A function of pointers that takes nil to nil.
abbrev pub on_pointer : {A B : Type 0} → (A → B) → Option A → Option B
on_pointer f none = none
on_pointer f (some a) = some (f a)
