-- ===== src/Workload/Names.antt =====
-- The names that internal/workload/adapter.go and internal/canary/deployment.go build by
-- `fmt.Sprintf`, and the explicit target that a policy may give.
use dynamic_secret_operator.Prelude.{Text, codes, none, some, [], ◌++◌}
use dynamic_secret_operator.Api.{DynamicSecretPolicy}

-- `%s-%s-rev-`, of the target and the object.
abbrev pub managed_prefix : Text → Text → Text
managed_prefix target object = target ++ (codes "-" ++ (object ++ codes "-rev-"))

-- `%s-rev-`.
abbrev pub legacy_prefix : Text → Text
legacy_prefix target = target ++ codes "-rev-"

-- `%s-%s-rev-%s`, the name of a materialized revision secret.
abbrev pub revision_secret_name : Text → Text → Text → Text
revision_secret_name target object revision = managed_prefix target object ++ revision

-- `policy.Spec.VaultRef.ObjectName`, by which both packages look for references.
abbrev pub vault_object : DynamicSecretPolicy → Text
vault_object policy = policy.spec.vault_ref.object_name

-- The three fields of `policy.Spec.TargetRef`, empty where it is nil.
unfoldable pub target_volume_name : DynamicSecretPolicy → Text
target_volume_name policy = elim policy.spec.target_ref [ none ↦ [] | some t ↦ t.volume_name ]

unfoldable pub target_env_name : DynamicSecretPolicy → Text
target_env_name policy = elim policy.spec.target_ref [ none ↦ [] | some t ↦ t.env_name ]

unfoldable pub target_container_name : DynamicSecretPolicy → Text
target_container_name policy = elim policy.spec.target_ref [ none ↦ [] | some t ↦ t.container_name ]
