-- ===== src/Workload/Mutate/Laws.antt =====
-- What `MutatePodTemplateSpec` of internal/workload/adapter.go keeps and what it replaces.
use dynamic_secret_operator.Prelude.{
  Text, text_eq_refl, List, [], ◌∷◌, map, map-append, map_idem, any-map, any-append_last, ◌≡◌,
  arith,
}
use dynamic_secret_operator.Api.{DynamicSecretPolicy}
use dynamic_secret_operator.Api.Pods.{
  Volume, EnvVar, Container, Labels, EnvFromSource, PodTemplateSpec,
}
use dynamic_secret_operator.Workload.Names.{target_env_name}
use dynamic_secret_operator.Workload.Mutate.{
  set_key, label_revision, mutate_named_volume, mutate_implicit_volume, mutate_volumes,
  mutate_named_env, is_named_env, appended_env, mutate_explicit_env, mutate_implicit_env,
  mutate_env_from, mutate_container, mutate_pod_template_spec,
}

pub set_key_idem : (k v : Text) (m : Labels) → set_key k v (set_key k v m) ≡ set_key k v m
unfolding set_key
set_key_idem k v [] = ground (arith, text_eq_refl k)
set_key_idem k v ((j, w) ∷ m) = ground (arith, text_eq_refl k, set_key_idem k v m)

module _ (target : Text) (policy : DynamicSecretPolicy) (new_secret : Text) where
  mutate_named_volume_idem :
      (v : Volume)
      → mutate_named_volume target policy new_secret
          (mutate_named_volume target policy new_secret v)
        ≡ mutate_named_volume target policy new_secret v
  unfolding mutate_named_volume
  mutate_named_volume_idem v = ground arith

  mutate_implicit_volume_idem :
      (v : Volume)
      → mutate_implicit_volume target policy new_secret
          (mutate_implicit_volume target policy new_secret v)
        ≡ mutate_implicit_volume target policy new_secret v
  unfolding mutate_implicit_volume
  mutate_implicit_volume_idem v = ground arith

  mutate_volumes_idem :
      (vs : List Volume)
      → mutate_volumes target policy new_secret (mutate_volumes target policy new_secret vs)
        ≡ mutate_volumes target policy new_secret vs
  unfolding mutate_volumes
  mutate_volumes_idem vs = ground (
    arith,
    map_idem (mutate_named_volume target policy new_secret) mutate_named_volume_idem vs,
    map_idem (mutate_implicit_volume target policy new_secret) mutate_implicit_volume_idem vs,
  )

  mutate_named_env_idem :
      (e : EnvVar)
      → mutate_named_env target policy new_secret (mutate_named_env target policy new_secret e)
        ≡ mutate_named_env target policy new_secret e
  unfolding mutate_named_env
  mutate_named_env_idem e = ground arith

  is_named_env-mutate_named_env :
      (e : EnvVar)
      → is_named_env target policy new_secret (mutate_named_env target policy new_secret e)
        ≡ is_named_env target policy new_secret e
  unfolding mutate_named_env is_named_env
  is_named_env-mutate_named_env e = ground arith

  mutate_explicit_env_idem :
      (c : Container)
      → mutate_explicit_env target policy new_secret
          (record c { env = mutate_explicit_env target policy new_secret c })
        ≡ mutate_explicit_env target policy new_secret c
  unfolding mutate_explicit_env
  mutate_explicit_env_idem c =
      let named = is_named_env target policy new_secret in
      let update = mutate_named_env target policy new_secret in
      let again = map_idem update mutate_named_env_idem c.env in
      let found = any-map named update is_named_env-mutate_named_env c.env in
      let appended =
        any-append_last named (map update c.env) (appended_env target policy new_secret)
          (unfold is_named_env in text_eq_refl (target_env_name policy)) in
      let both =
        map-append update (map update c.env) (appended_env target policy new_secret ∷ []) in
      let last : update (appended_env target policy new_secret)
          ≡ appended_env target policy new_secret =
        unfold mutate_named_env in ground (arith, text_eq_refl (target_env_name policy)) in
      ground (arith, again, found, appended, both, last)

  mutate_implicit_env_idem :
      (e : EnvVar)
      → mutate_implicit_env target policy new_secret
          (mutate_implicit_env target policy new_secret e)
        ≡ mutate_implicit_env target policy new_secret e
  unfolding mutate_implicit_env
  mutate_implicit_env_idem e = ground arith

  mutate_env_from_idem :
      (e : EnvFromSource)
      → mutate_env_from target policy new_secret (mutate_env_from target policy new_secret e)
        ≡ mutate_env_from target policy new_secret e
  unfolding mutate_env_from
  mutate_env_from_idem e = ground arith

  mutate_container_idem :
      (c : Container)
      → mutate_container target policy new_secret (mutate_container target policy new_secret c)
        ≡ mutate_container target policy new_secret c
  unfolding mutate_container
  mutate_container_idem c = ground (
    arith,
    mutate_explicit_env_idem c,
    map_idem (mutate_implicit_env target policy new_secret) mutate_implicit_env_idem c.env,
    map_idem (mutate_env_from target policy new_secret) mutate_env_from_idem c.env_from,
  )

  -- Mutating a pod template to a revision that it already has changes nothing: a promotion that is
  -- repeated, after a failed status patch for example, writes the same template.
  pub mutate_pod_template_spec_idem :
      (tpl : PodTemplateSpec)
      → mutate_pod_template_spec target policy new_secret
          (mutate_pod_template_spec target policy new_secret tpl)
        ≡ mutate_pod_template_spec target policy new_secret tpl
  unfolding mutate_pod_template_spec
  mutate_pod_template_spec_idem tpl =
      let each = map_idem (mutate_container target policy new_secret) (mutate_container_idem) in
      cc (
        set_key_idem label_revision policy.status.desired_revision tpl.annotations,
        mutate_volumes_idem tpl.volumes,
        each tpl.containers,
        each tpl.init_containers,
      )
