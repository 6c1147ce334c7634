-- ===== src/Workload/Mutate.antt =====
-- `MutatePodTemplateSpec` of internal/workload/adapter.go. The loops over volumes, containers and
-- variables assign to each element on its own, so each is a `map` of the assignment.
pub mod Laws
pub mod Frame
pub mod Promoted
use dynamic_secret_operator.Prelude.{
  ℕ, Text, codes, text_eq, has_prefix, is_empty, Bool, true, false, not, ◌&&◌, ◌||◌, Option, none,
  some, List, [], ◌∷◌, ◌++◌, map, any, if◌then◌else◌,
}
use dynamic_secret_operator.Api.{DynamicSecretPolicy}
use dynamic_secret_operator.Api.Pods.{
  SecretVolumeSource, Volume, SecretKeySelector, EnvVarSource, EnvVar, SecretEnvSource,
  EnvFromSource, Container, Labels, PodTemplateSpec,
}
use dynamic_secret_operator.Workload.Names.{
  managed_prefix, legacy_prefix, vault_object, target_volume_name, target_env_name,
  target_container_name,
}

-- `m[key] = value` on a string map.
unfoldable pub set_key : Text → Text → Labels → Labels
set_key key value [] = (key, value) ∷ []
set_key key value ((k, v) ∷ m) =
    if text_eq k key then (key, value) ∷ m else (k, v) ∷ set_key key value m

-- The annotation `canary.LabelRevision`.
abbrev pub label_revision : Text
label_revision = codes "dso.quantumsys.dev/revision"

module _ (target : Text) (policy : DynamicSecretPolicy) (new_secret : Text) where
  -- `vol.Secret.SecretName = newSecretName`, with a new source where it is nil.
  unfoldable pub mount_secret : Volume → Volume
  mount_secret vol = elim vol.secret [
    | none ↦ record vol { secret = some (record { secret_name = new_secret; rest = [] }) }
    | some s ↦ record vol { secret = some (record s { secret_name = new_secret }) }
  ]

  unfoldable pub mutate_named_volume : Volume → Volume
  unfolding mount_secret
  mutate_named_volume vol =
      if text_eq vol.name (target_volume_name policy) then mount_secret vol else vol

  -- The eight ways in which a volume may refer to the rotated secret.
  unfoldable pub refers_to_volume : Text → Text → Bool
  refers_to_volume secret_name volume_name =
      has_prefix secret_name (managed_prefix target (vault_object policy))
      || (text_eq secret_name (vault_object policy)
          || (text_eq secret_name (target ++ (codes "-" ++ vault_object policy))
              || (text_eq secret_name
                    (target ++ (codes "-" ++ (vault_object policy ++ codes "-secret")))
                  || (text_eq secret_name (target ++ codes "-secret")
                      || (text_eq volume_name (vault_object policy)
                          || (text_eq volume_name (vault_object policy ++ codes "-volume")
                              || (has_prefix secret_name (legacy_prefix target)
                                  && is_empty (target_volume_name policy))))))))

  unfoldable pub mutate_implicit_volume : Volume → Volume
  mutate_implicit_volume vol = elim vol.secret [
    | none ↦ vol
    | some s ↦
        if refers_to_volume s.secret_name vol.name
        then record vol { secret = some (record s { secret_name = new_secret }) }
        else vol
  ]

  unfoldable pub mutate_volumes : List Volume → List Volume
  mutate_volumes vols =
      if not (is_empty (target_volume_name policy))
      then map mutate_named_volume vols
      else if is_empty (target_env_name policy)
      then map mutate_implicit_volume vols
      else vols

  -- The source of a variable that reads the rotated object from the new secret.
  abbrev pub new_source : EnvVarSource
  new_source = record {
    secret_key_ref = some (record { name = new_secret; key = vault_object policy; rest = [] });
    rest = [];
  }

  unfoldable pub mutate_named_env : EnvVar → EnvVar
  mutate_named_env env_var =
      if text_eq env_var.name (target_env_name policy)
      then record env_var { value = []; value_from = some new_source }
      else env_var

  unfoldable pub is_named_env : EnvVar → Bool
  is_named_env env_var = text_eq env_var.name (target_env_name policy)

  abbrev pub appended_env : EnvVar
  appended_env = record { name = target_env_name policy; value = []; value_from = some new_source }

  unfoldable pub mutate_explicit_env : Container → List EnvVar
  mutate_explicit_env container =
      if not (any is_named_env container.env)
        && (is_empty (target_container_name policy)
            || text_eq container.name (target_container_name policy))
      then map mutate_named_env container.env ++ appended_env ∷ []
      else map mutate_named_env container.env

  -- The references that promotion replaces in a variable.
  unfoldable pub refers_to_env : SecretKeySelector → Bool
  refers_to_env ref =
      has_prefix ref.name (managed_prefix target (vault_object policy))
      || (has_prefix ref.name (legacy_prefix target)
          || (text_eq ref.name (vault_object policy)
              || text_eq ref.name (target ++ (codes "-" ++ vault_object policy))))

  -- The variable's reference renamed, where the test passes.
  abbrev pub rename_source : EnvVarSource → EnvVarSource
  rename_source source = elim source.secret_key_ref [
    | none ↦ source
    | some ref ↦
        if refers_to_env ref
        then record source { secret_key_ref = some (record ref { name = new_secret }) }
        else source
  ]

  unfoldable pub mutate_implicit_env : EnvVar → EnvVar
  mutate_implicit_env env_var = elim env_var.value_from [
    | none ↦ env_var
    | some source ↦ record env_var { value_from = some (rename_source source) }
  ]

  unfoldable pub refers_to_env_from : Text → Bool
  refers_to_env_from name =
      has_prefix name (managed_prefix target (vault_object policy))
      || (text_eq name (vault_object policy)
          || (text_eq name (target ++ (codes "-" ++ vault_object policy))
              || ((not (is_empty policy.status.current_revision)
                    && text_eq name (
                        managed_prefix target (vault_object policy)
                        ++ policy.status.current_revision))
                  || (not (is_empty policy.status.current_revision)
                      && text_eq name (legacy_prefix target ++ policy.status.current_revision)))))

  unfoldable pub mutate_env_from : EnvFromSource → EnvFromSource
  mutate_env_from env_from = elim env_from.secret_ref [
    | none ↦ env_from
    | some ref ↦
        if refers_to_env_from ref.name
        then record env_from { secret_ref = some (record ref { name = new_secret }) }
        else env_from
  ]

  -- One round of the closure `mutateContainers`.
  unfoldable pub mutate_container : Container → Container
  mutate_container container =
      if not (is_empty (target_container_name policy))
        && not (text_eq container.name (target_container_name policy))
      then container
      else if not (is_empty (target_env_name policy))
      then record container { env = mutate_explicit_env container }
      else record container {
        env = map mutate_implicit_env container.env;
        env_from = map mutate_env_from container.env_from;
      }

  unfoldable pub mutate_pod_template_spec : PodTemplateSpec → PodTemplateSpec
  mutate_pod_template_spec tpl = record tpl {
    annotations = set_key label_revision policy.status.desired_revision tpl.annotations;
    volumes = mutate_volumes tpl.volumes;
    containers = map mutate_container tpl.containers;
    init_containers = map mutate_container tpl.init_containers;
  }
