-- ===== src/Canary/Agreement.antt =====
-- What the canary of internal/canary/deployment.go tests of the template that promotion
-- (internal/workload/adapter.go) writes, and whom its labels keep away.
use mathlib.Core.List.{Memᴰ}
use dynamic_secret_operator.Prelude.{
  Text, codes, text_eq, text_eq_iff, text_eq_refl, has_prefix, Bool, true, false, ◌&&◌, Option,
  none, some, List, [], ◌∷◌, ◌++◌, map, map_congr, map_mem, ◌≡◌, ◌≢◌, refl, sym, subst, arith,
  if◌then◌else◌,
}
use dynamic_secret_operator.Api.{DynamicSecretPolicy}
use dynamic_secret_operator.Api.Pods.{
  Volume, EnvVar, EnvVarSource, SecretKeySelector, Container, Labels, PodTemplateSpec,
}
use dynamic_secret_operator.Workload.Names.{
  managed_prefix, legacy_prefix, vault_object, target_env_name, target_container_name,
}
use dynamic_secret_operator.Workload.Mutate.{
  mount_secret, mutate_named_volume, refers_to_volume, mutate_implicit_volume, mutate_volumes,
  mutate_named_env, is_named_env, mutate_explicit_env, refers_to_env, mutate_implicit_env,
  mutate_container, mutate_pod_template_spec,
}
use dynamic_secret_operator.Canary.Template.{
  canary_mount, canary_named_volume, canary_refers_to_volume, canary_implicit_volume,
  canary_volumes, canary_named_env, is_canary_env, canary_explicit_env, canary_refers_to_env,
  canary_implicit_env, canary_container,
}
use dynamic_secret_operator.Canary.Deployment.{
  label_canary, label_target_workload, canary_labels, canary_template, build_canary_from_template,
}

-- Whether a selector of labels chooses labels that hold each of its entries.
abbrev label_of : Text → Labels → Option Text
label_of k [] = none
label_of k ((j, v) ∷ m) = if text_eq j k then some v else label_of k m

abbrev is_value : Option Text → Text → Bool
is_value none v = false
is_value (some w) v = text_eq w v

pub selects : Labels → Labels → Bool
selects [] labels = true
selects ((k, v) ∷ selector) labels = is_value (label_of k labels) v && selects selector labels

module _ (target : Text) (policy : DynamicSecretPolicy) (new_secret : Text) where
  named_volume_agrees :
      (v : Volume)
      → canary_named_volume target policy new_secret v
        ≡ mutate_named_volume target policy new_secret v
  unfolding canary_named_volume mutate_named_volume canary_mount mount_secret
  named_volume_agrees v = refl

  implicit_volume_agrees :
      (v : Volume)
      → canary_implicit_volume target policy new_secret v
        ≡ mutate_implicit_volume target policy new_secret v
  unfolding canary_implicit_volume mutate_implicit_volume canary_refers_to_volume refers_to_volume
  implicit_volume_agrees v = refl

  volumes_agree :
      (vols : List Volume)
      → canary_volumes target policy new_secret vols ≡ mutate_volumes target policy new_secret vols
  unfolding canary_volumes mutate_volumes
  volumes_agree vols = ground (
    arith,
    map_congr (canary_named_volume target policy new_secret)
        (mutate_named_volume target policy new_secret) named_volume_agrees vols,
    map_congr (canary_implicit_volume target policy new_secret)
        (mutate_implicit_volume target policy new_secret) implicit_volume_agrees vols,
  )

  explicit_env_agrees :
      (c : Container)
      → canary_explicit_env target policy new_secret c
        ≡ mutate_explicit_env target policy new_secret c
  unfolding canary_explicit_env mutate_explicit_env canary_named_env mutate_named_env is_canary_env
      is_named_env
  explicit_env_agrees c = refl

  container_agrees :
      target_env_name policy ≢ []
      → (c : Container)
      → canary_container target policy new_secret c ≡ mutate_container target policy new_secret c
  unfolding canary_container mutate_container
  container_agrees named c = ground (arith, explicit_env_agrees c)

  -- Under a policy that names the variable to set, the canary's own replacements and those of
  -- promotion agree: the canary's pods run with exactly the annotations, volumes, containers and
  -- init containers that promotion gives to the production template.
  pub canary_agrees :
      target_env_name policy ≢ []
      → (tpl : PodTemplateSpec)
      → canary_template target policy new_secret tpl
        ≡ record (mutate_pod_template_spec target policy new_secret tpl) {
          labels = canary_labels target;
        }
  unfolding canary_template mutate_pod_template_spec
  canary_agrees named tpl =
      let each = map_congr _ _ (container_agrees named) in
      cc (volumes_agree tpl.volumes, each tpl.containers, each tpl.init_containers)

  -- A container of a list, by its name, with a variable.
  abbrev pub Runs : EnvVar → Container → List Container → Type 0
  Runs e c cs = (d : Container) × Memᴰ d cs × (d.name ≡ c.name) × Memᴰ e d.env

  Runs-map :
      (f : Container → Container) (g : EnvVar → EnvVar) (c : Container) (cs : List Container)
      (e : EnvVar)
      → (f c).name ≡ c.name
      → (f c).env ≡ map g c.env
      → Memᴰ c cs
      → Memᴰ e c.env
      → Runs (g e) c (map f cs)
  Runs-map f g c cs e n h m k =
      (f c, map_mem f cs m, n, subst (Memᴰ (g e)) (sym h) (map_mem g c.env k))

  module _ (e : EnvVar) (source : EnvVarSource) (ref : SecretKeySelector)
      (has_source : e.value_from ≡ some source) (has_ref : source.secret_key_ref ≡ some ref) where
    abbrev renamed : EnvVar
    renamed = record e {
      value_from =
          some (record source { secret_key_ref = some (record ref { name = new_secret }) });
    }

    by_key :
        ref.key ≡ vault_object policy → canary_implicit_env target policy new_secret e ≡ renamed
    unfolding canary_implicit_env canary_refers_to_env
    by_key keyed = ground (arith, text_eq_iff ref.key (vault_object policy))

    not_by_key :
        has_prefix ref.name (managed_prefix target (vault_object policy)) ≡ false
        → has_prefix ref.name (legacy_prefix target) ≡ false
        → ref.name ≢ vault_object policy
        → ref.name ≢ target ++ (codes "-" ++ vault_object policy)
        → mutate_implicit_env target policy new_secret e ≡ e
    unfolding mutate_implicit_env refers_to_env
    not_by_key h1 h2 h3 h4 = ground (
      arith,
      text_eq_iff ref.name (vault_object policy),
      text_eq_iff ref.name (target ++ (codes "-" ++ vault_object policy)),
    )

    -- Under a policy that names neither a variable nor a container they may differ. Let a variable
    -- of a container read the policy's key from a secret of another name: one that begins neither
    -- with `<target>-<object>-rev-` nor with `<target>-rev-`, and is not the object's, with or
    -- without the target before it. Then the canary runs the container with the variable reading
    -- the new revision, and the promoted template with the variable as it was, reading the other
    -- secret.
    pub canary_differs :
        (tpl : PodTemplateSpec) (c : Container)
        → target_env_name policy ≡ []
        → target_container_name policy ≡ []
        → Memᴰ c tpl.containers
        → Memᴰ e c.env
        → ref.key ≡ vault_object policy
        → has_prefix ref.name (managed_prefix target (vault_object policy)) ≡ false
        → has_prefix ref.name (legacy_prefix target) ≡ false
        → ref.name ≢ vault_object policy
        → ref.name ≢ target ++ (codes "-" ++ vault_object policy)
        → Runs renamed c (canary_template target policy new_secret tpl).containers
          × Runs e c (mutate_pod_template_spec target policy new_secret tpl).containers
    unfolding canary_template mutate_pod_template_spec canary_container mutate_container
    canary_differs tpl c no_env no_container m k keyed h1 h2 h3 h4 = (
      subst (λ x. Runs x c (map (canary_container target policy new_secret) tpl.containers))
          (by_key keyed)
          (Runs-map (canary_container target policy new_secret)
            (canary_implicit_env target policy new_secret) c tpl.containers e
            (rw (no_container, no_env) refl) (rw (no_container, no_env) refl) m k),
      subst (λ x. Runs x c (map (mutate_container target policy new_secret) tpl.containers))
          (not_by_key h1 h2 h3 h4)
          (Runs-map (mutate_container target policy new_secret)
            (mutate_implicit_env target policy new_secret) c tpl.containers e
            (rw (no_container, no_env) refl) (rw (no_container, no_env) refl) m k),
    )

  -- The canary Deployment selects its own pods, and no selector that asks for a label other than
  -- the canary's two (as a production Service does) selects them.
  pub canary_isolated :
      (tpl : PodTemplateSpec) (k v : Text) (more : Labels)
      → k ≢ label_canary
      → k ≢ label_target_workload
      → let d = build_canary_from_template target policy new_secret tpl in
        (selects d.match_labels d.template.labels ≡ true)
        × (selects ((k, v) ∷ more) d.template.labels ≡ false)
  unfolding build_canary_from_template canary_template selects text_eq
  canary_isolated tpl k v more h1 h2 = (
    rw (text_eq_refl target),
    ground (arith, text_eq_iff label_canary k, text_eq_iff label_target_workload k),
  )
