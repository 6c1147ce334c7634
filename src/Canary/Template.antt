-- ===== src/Canary/Template.antt =====
-- The loops of `BuildCanaryFromTemplate` in internal/canary/deployment.go over the canary's volumes
-- and containers: its own statements, beside those of `MutatePodTemplateSpec`. Each loop assigns to
-- each element on its own, so it is a `map` of the assignment.
use dynamic_secret_operator.Prelude.{
  Text, codes, text_eq, has_prefix, is_empty, Bool, not, ◌&&◌, ◌||◌, none, some, List, [], ◌∷◌,
  ◌++◌, map, any, if◌then◌else◌,
}
use dynamic_secret_operator.Api.{DynamicSecretPolicy}
use dynamic_secret_operator.Api.Pods.{
  Volume, SecretKeySelector, EnvVarSource, EnvVar, EnvFromSource, Container,
}
use dynamic_secret_operator.Workload.Names.{
  managed_prefix, legacy_prefix, vault_object, target_volume_name, target_env_name,
  target_container_name,
}

module _ (target : Text) (policy : DynamicSecretPolicy) (new_secret : Text) where
  -- `vol.Secret.SecretName = newSecretName`, with a new source where it is nil.
  unfoldable pub canary_mount : Volume → Volume
  canary_mount vol = elim vol.secret [
    | none ↦ record vol { secret = some (record { secret_name = new_secret; rest = [] }) }
    | some s ↦ record vol { secret = some (record s { secret_name = new_secret }) }
  ]

  unfoldable pub canary_named_volume : Volume → Volume
  unfolding canary_mount
  canary_named_volume vol =
      if text_eq vol.name (target_volume_name policy) then canary_mount vol else vol

  -- The eight ways in which a volume may refer to the rotated secret.
  unfoldable pub canary_refers_to_volume : Text → Text → Bool
  canary_refers_to_volume secret_name volume_name =
      has_prefix secret_name (managed_prefix target (vault_object policy))
      || (text_eq secret_name (vault_object policy)
          || (text_eq secret_name (target ++ (codes "-" ++ vault_object policy))
              || (text_eq secret_name
                    (target ++ (codes "-" ++ (vault_object policy ++ codes "-secret")))
                  || (text_eq secret_name (target ++ codes "-secret")
                      || (text_eq volume_name (vault_object policy)
                          || (text_eq volume_name (vault_object policy ++ codes "-volume")
                              || (has_prefix secret_name (legacy_prefix target)
                                  && is_empty (target_volume_name policy))))))))

  unfoldable pub canary_implicit_volume : Volume → Volume
  canary_implicit_volume vol = elim vol.secret [
    | none ↦ vol
    | some s ↦
        if canary_refers_to_volume s.secret_name vol.name
        then record vol { secret = some (record s { secret_name = new_secret }) }
        else vol
  ]

  unfoldable pub canary_volumes : List Volume → List Volume
  canary_volumes vols =
      if not (is_empty (target_volume_name policy))
      then map canary_named_volume vols
      else if is_empty (target_env_name policy)
      then map canary_implicit_volume vols
      else vols

  -- The source of a variable that reads the rotated object from the new secret.
  abbrev pub canary_source : EnvVarSource
  canary_source = record {
    secret_key_ref = some (record { name = new_secret; key = vault_object policy; rest = [] });
    rest = [];
  }

  unfoldable pub canary_named_env : EnvVar → EnvVar
  canary_named_env env_var =
      if text_eq env_var.name (target_env_name policy)
      then record env_var { value = []; value_from = some canary_source }
      else env_var

  unfoldable pub is_canary_env : EnvVar → Bool
  is_canary_env env_var = text_eq env_var.name (target_env_name policy)

  abbrev pub added_env : EnvVar
  added_env = record { name = target_env_name policy; value = []; value_from = some canary_source }

  unfoldable pub canary_explicit_env : Container → List EnvVar
  canary_explicit_env container =
      if not (any is_canary_env container.env)
        && (is_empty (target_container_name policy)
            || text_eq container.name (target_container_name policy))
      then map canary_named_env container.env ++ added_env ∷ []
      else map canary_named_env container.env

  -- The references that the canary replaces in a variable.
  unfoldable pub canary_refers_to_env : SecretKeySelector → Bool
  canary_refers_to_env ref =
      has_prefix ref.name (managed_prefix target (vault_object policy))
      || (text_eq ref.key (vault_object policy)
          || (text_eq ref.name (vault_object policy)
              || (text_eq ref.name (target ++ (codes "-" ++ vault_object policy))
                  || ((not (is_empty policy.status.current_revision)
                        && text_eq ref.name (
                            managed_prefix target (vault_object policy)
                            ++ policy.status.current_revision))
                      || (not (is_empty policy.status.current_revision)
                          && text_eq ref.name
                              (legacy_prefix target ++ policy.status.current_revision))))))

  -- The variable's reference renamed, where the test passes.
  abbrev pub canary_rename : EnvVarSource → EnvVarSource
  canary_rename source = elim source.secret_key_ref [
    | none ↦ source
    | some ref ↦
        if canary_refers_to_env ref
        then record source { secret_key_ref = some (record ref { name = new_secret }) }
        else source
  ]

  unfoldable pub canary_implicit_env : EnvVar → EnvVar
  canary_implicit_env env_var = elim env_var.value_from [
    | none ↦ env_var
    | some source ↦ record env_var { value_from = some (canary_rename source) }
  ]

  unfoldable pub canary_refers_to_env_from : Text → Bool
  canary_refers_to_env_from name =
      has_prefix name (managed_prefix target (vault_object policy))
      || (text_eq name (vault_object policy)
          || (text_eq name (target ++ (codes "-" ++ vault_object policy))
              || ((not (is_empty policy.status.current_revision)
                    && text_eq name (
                        managed_prefix target (vault_object policy)
                        ++ policy.status.current_revision))
                  || (not (is_empty policy.status.current_revision)
                      && text_eq name (legacy_prefix target ++ policy.status.current_revision)))))

  unfoldable pub canary_env_from : EnvFromSource → EnvFromSource
  canary_env_from env_from = elim env_from.secret_ref [
    | none ↦ env_from
    | some ref ↦
        if canary_refers_to_env_from ref.name
        then record env_from { secret_ref = some (record ref { name = new_secret }) }
        else env_from
  ]

  -- One round of the closure `mutateContainers`.
  unfoldable pub canary_container : Container → Container
  canary_container container =
      if not (is_empty (target_container_name policy))
        && not (text_eq container.name (target_container_name policy))
      then container
      else if not (is_empty (target_env_name policy))
      then record container { env = canary_explicit_env container }
      else record container {
        env = map canary_implicit_env container.env;
        env_from = map canary_env_from container.env_from;
      }
