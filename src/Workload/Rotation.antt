-- ===== src/Workload/Rotation.antt =====
-- Two promotions in a row: whether `MutatePodTemplateSpec` of internal/workload/adapter.go finds
-- again the name that the reconciler gave the previous revision,
-- `<target>-<GetVaultObjectName()>-rev-<hash>`.
use mathlib.Core.List.{Memᴰ}
use dynamic_secret_operator.Prelude.{
  ℕ, Text, codes, has_prefix, has_prefix-append_left, text_eq, text_eq_iff, text_eq-append_left,
  false, Bool-cases, is_empty, map, map_mem, subst, inl, inr, some, [], ◌∷◌, ◌++◌, append_assoc,
  ◌≡◌, ◌≢◌, refl, arith,
}
use dynamic_secret_operator.Api.{DynamicSecretPolicy, get_vault_object_name}
use dynamic_secret_operator.Api.Pods.{Volume, PodTemplateSpec}
use dynamic_secret_operator.Workload.Names.{
  target_volume_name, target_env_name, vault_object, revision_secret_name,
}
use dynamic_secret_operator.Workload.Mutate.{
  refers_to_volume, mutate_implicit_volume, mutate_volumes, mutate_pod_template_spec,
}

-- The name of the secret that the reconciler materializes for a revision of the policy's object.
abbrev pub materialized : Text → DynamicSecretPolicy → Text → Text
materialized target policy revision =
    revision_secret_name target (get_vault_object_name policy.spec) revision

text_eq-append-nil : (s : Text) (c : ℕ) (t : Text) → text_eq (s ++ c ∷ t) [] ≡ false
unfolding text_eq
text_eq-append-nil [] c t = refl
text_eq-append-nil (d ∷ s) c t = refl

-- With an empty `vaultRef`, a name `<target>-c…` passes none of the eight tests.
refers_to_volume_of_source :
    (target : Text) (policy : DynamicSecretPolicy) (new volume_name : Text) (c : ℕ) (t : Text)
    → vault_object policy ≡ []
    → c ≢ b'-'
    → c ≢ b'r'
    → c ≢ b's'
    → volume_name ≢ []
    → volume_name ≢ codes "-volume"
    → refers_to_volume target policy new (target ++ b'-' ∷ c ∷ t) volume_name ≡ false
unfolding refers_to_volume has_prefix text_eq
refers_to_volume_of_source target policy new volume_name c t empty h1 h2 h3 n1 n2 =
    let x : Text = b'-' ∷ c ∷ t in
    rw empty (
      ground (
        arith,
        has_prefix-append_left target (codes "--rev-") x,
        has_prefix-append_left target (codes "-rev-") x,
        text_eq-append-nil target b'-' (c ∷ t),
        text_eq-append_left target x (codes "-"),
        text_eq-append_left target x (codes "--secret"),
        text_eq-append_left target x (codes "-secret"),
        text_eq_iff volume_name [],
        text_eq_iff volume_name (codes "-volume"),
      ))

not_mutated :
    (target : Text) (policy : DynamicSecretPolicy) (old new : Text) (v : Volume) (rest : Text)
    (c : ℕ) (object : Text)
    → vault_object policy ≡ []
    → get_vault_object_name policy.spec ≡ c ∷ object
    → c ≢ b'-'
    → c ≢ b'r'
    → c ≢ b's'
    → v.name ≢ []
    → v.name ≢ codes "-volume"
    → v.secret ≡ some (record { secret_name = materialized target policy old; rest = rest })
    → mutate_implicit_volume target policy (materialized target policy new) v ≡ v
unfolding mutate_implicit_volume
not_mutated target policy old new v rest c object empty named h1 h2 h3 n1 n2 mounted =
    let tail : Text = (object ++ codes "-rev-") ++ old in
    let name : materialized target policy old ≡ target ++ b'-' ∷ c ∷ tail =
      rw named (append_assoc target _ old) in
    ground (
      arith,
      name,
      refers_to_volume_of_source target policy (materialized target policy new) v.name c tail empty
          h1 h2 h3 n1 n2,
    )

-- A policy that gives its object by `source`, with an empty `vaultRef`, and names no volume does not
-- find the name of its own previous revision: a volume with that revision's secret stands in the
-- promoted template as it was. The object's name begins with none of `-`, `r` and `s`, and the
-- volume is named neither "" nor "-volume".
pub source_not_promoted :
    (target : Text) (policy : DynamicSecretPolicy) (old new : Text) (v : Volume) (rest : Text)
    (c : ℕ) (object : Text) (tpl : PodTemplateSpec)
    → target_volume_name policy ≡ []
    → vault_object policy ≡ []
    → get_vault_object_name policy.spec ≡ c ∷ object
    → c ≢ b'-'
    → c ≢ b'r'
    → c ≢ b's'
    → v.name ≢ []
    → v.name ≢ codes "-volume"
    → v.secret ≡ some (record { secret_name = materialized target policy old; rest = rest })
    → Memᴰ v tpl.volumes
    → Memᴰ v (mutate_pod_template_spec target policy (materialized target policy new) tpl).volumes
unfolding mutate_pod_template_spec mutate_volumes
source_not_promoted target policy old new v rest c object tpl no_volume empty named h1 h2 h3 n1 n2
      mounted m =
    let secret = materialized target policy new in
    let kept =
      not_mutated target policy old new v rest c object empty named h1 h2 h3 n1 n2 mounted in
    let renamed : Memᴰ v (map (mutate_implicit_volume target policy secret) tpl.volumes) =
      subst (λ u. Memᴰ u (map (mutate_implicit_volume target policy secret) tpl.volumes)) kept
        (map_mem (mutate_implicit_volume target policy secret) tpl.volumes m) in
    elim (Bool-cases (is_empty (target_env_name policy))) [
      | inl e ↦ rw (mutate_pod_template_spec, mutate_volumes, no_volume, e) renamed
      | inr e ↦ rw (mutate_pod_template_spec, mutate_volumes, no_volume, e) m
    ]
