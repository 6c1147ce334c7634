-- ===== src/Workload/Mutate/Frame.antt =====
-- `MutatePodTemplateSpec` of internal/workload/adapter.go without an explicit volume or variable: it
-- changes nothing but the names of secrets.
use dynamic_secret_operator.Prelude.{Text, none, some, [], map, map-map_of, ◌≡◌, arith}
use dynamic_secret_operator.Api.{DynamicSecretPolicy}
use dynamic_secret_operator.Api.Pods.{
  Volume, EnvVar, EnvVarSource, Container, EnvFromSource, PodTemplateSpec,
}
use dynamic_secret_operator.Workload.Names.{target_env_name, target_volume_name}
use dynamic_secret_operator.Workload.Mutate.{
  set_key, label_revision, mutate_implicit_volume, mutate_volumes, mutate_implicit_env,
  mutate_env_from, mutate_container, mutate_pod_template_spec,
}

-- A template with the names of its secrets left out.
strip_volume : Volume → Volume
strip_volume v = elim v.secret [
  | none ↦ v
  | some s ↦ record v { secret = some (record s { secret_name = [] }) }
]

strip_source : EnvVarSource → EnvVarSource
strip_source s = elim s.secret_key_ref [
  | none ↦ s
  | some ref ↦ record s { secret_key_ref = some (record ref { name = [] }) }
]

strip_env : EnvVar → EnvVar
strip_env e = elim e.value_from [
  | none ↦ e
  | some s ↦ record e { value_from = some (strip_source s) }
]

strip_env_from : EnvFromSource → EnvFromSource
strip_env_from e = elim e.secret_ref [
  | none ↦ e
  | some ref ↦ record e { secret_ref = some (record ref { name = [] }) }
]

strip_container : Container → Container
strip_container c = record c { env = map strip_env c.env; env_from = map strip_env_from c.env_from }

pub strip : PodTemplateSpec → PodTemplateSpec
strip tpl = record tpl {
  volumes = map strip_volume tpl.volumes;
  containers = map strip_container tpl.containers;
  init_containers = map strip_container tpl.init_containers;
}

module _ (target : Text) (policy : DynamicSecretPolicy) (new_secret : Text) where
  strip-mutate_implicit_volume :
      (v : Volume)
      → strip_volume (mutate_implicit_volume target policy new_secret v) ≡ strip_volume v
  unfolding mutate_implicit_volume strip_volume
  strip-mutate_implicit_volume v = ground arith

  strip-mutate_implicit_env :
      (e : EnvVar) → strip_env (mutate_implicit_env target policy new_secret e) ≡ strip_env e
  unfolding mutate_implicit_env strip_env strip_source
  strip-mutate_implicit_env e = ground arith

  strip-mutate_env_from :
      (e : EnvFromSource)
      → strip_env_from (mutate_env_from target policy new_secret e) ≡ strip_env_from e
  unfolding mutate_env_from strip_env_from
  strip-mutate_env_from e = ground arith

  strip-mutate_container :
      target_env_name policy ≡ []
      → (c : Container)
      → strip_container (mutate_container target policy new_secret c) ≡ strip_container c
  unfolding mutate_container strip_container
  strip-mutate_container no_env c = ground (
    arith,
    map-map_of strip_env (mutate_implicit_env target policy new_secret) strip_env
        strip-mutate_implicit_env c.env,
    map-map_of strip_env_from (mutate_env_from target policy new_secret) strip_env_from
        strip-mutate_env_from c.env_from,
  )

  -- Without an explicit volume or variable, promotion changes only the revision annotation and the
  -- names of secrets: with those names left out, every other field of the template is as it was.
  pub strip-mutate_pod_template_spec :
      target_volume_name policy ≡ []
      → target_env_name policy ≡ []
      → (tpl : PodTemplateSpec)
      → strip (mutate_pod_template_spec target policy new_secret tpl) ≡ record (strip tpl) {
        annotations = set_key label_revision policy.status.desired_revision tpl.annotations;
      }
  unfolding mutate_pod_template_spec mutate_volumes strip
  strip-mutate_pod_template_spec no_volume no_env tpl =
      let each =
        map-map_of strip_container (mutate_container target policy new_secret) strip_container
          (strip-mutate_container no_env) in
      ground (
        arith,
        map-map_of strip_volume (mutate_implicit_volume target policy new_secret) strip_volume
            strip-mutate_implicit_volume tpl.volumes,
        each tpl.containers,
        each tpl.init_containers,
      )
