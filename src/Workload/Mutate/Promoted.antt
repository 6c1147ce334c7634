-- ===== src/Workload/Mutate/Promoted.antt =====
-- `MutatePodTemplateSpec` of internal/workload/adapter.go without an explicit target: the references
-- that it leaves.
use dynamic_secret_operator.Prelude.{
  Text, codes, has_prefix, Bool, false, Option, none, some, ◌++◌, ◌≢◌, All, ◌≡◌, ◌⊎◌,
}
use dynamic_secret_operator.Api.{DynamicSecretPolicy}
use dynamic_secret_operator.Api.Pods.{
  Volume, EnvVar, EnvVarSource, Container, EnvFromSource, PodTemplateSpec,
}
use dynamic_secret_operator.Workload.Names.{managed_prefix, vault_object}

module _ (target : Text) (policy : DynamicSecretPolicy) (new_secret : Text) where
  -- The name of a secret that is none of the rotated object: it is neither that of a revision,
  -- `<target>-<object>-rev-…`, nor the object's own, with or without the target before it.
  pub record IsForeign (name : Text) : Type 0 where
    pub no_revision : has_prefix name (managed_prefix target (vault_object policy)) ≡ false
    pub not_object : name ≢ vault_object policy
    pub not_target_object : name ≢ target ++ (codes "-" ++ vault_object policy)

  -- The name of a secret, if there is one, is the new one or foreign.
  abbrev VolumeIsPromoted : Volume → Type 0
  VolumeIsPromoted v = elim v.secret [
    | none ↦ Unit
    | some s ↦ (s.secret_name ≡ new_secret) ⊎ IsForeign s.secret_name
  ]

  abbrev SourceIsPromoted : EnvVarSource → Type 0
  SourceIsPromoted s = elim s.secret_key_ref [
    | none ↦ Unit
    | some ref ↦ (ref.name ≡ new_secret) ⊎ IsForeign ref.name
  ]

  abbrev EnvIsPromoted : EnvVar → Type 0
  EnvIsPromoted e = elim e.value_from [ none ↦ Unit | some s ↦ SourceIsPromoted s ]

  abbrev EnvFromIsPromoted : EnvFromSource → Type 0
  EnvFromIsPromoted e = elim e.secret_ref [
    | none ↦ Unit
    | some ref ↦ (ref.name ≡ new_secret) ⊎ IsForeign ref.name
  ]

  abbrev ContainerIsPromoted : Container → Type 0
  ContainerIsPromoted c = All EnvIsPromoted c.env × All EnvFromIsPromoted c.env_from

  abbrev pub TemplateIsPromoted : PodTemplateSpec → Type 0
  TemplateIsPromoted tpl =
      All VolumeIsPromoted tpl.volumes
      × All ContainerIsPromoted tpl.containers
      × All ContainerIsPromoted tpl.init_containers

  -- An optional value, of which something holds where it is there.
  abbrev Maybe : {A : Type 0} → (A → Type 0) → Option A → Type 0
  Maybe P none = Unit
  Maybe P (some a) = P a

  abbrev Tested : Text → Bool → Type 0
  Tested name test = (name ≡ new_secret) ⊎ (test ≡ false)
