-- ===== src/Scenario/Completion.antt =====
-- The theorem on a rotation that completes, at a cluster whose state is the policy that it holds.
use dynamic_secret_operator.Prelude.{Text, codes, text_eq, false, none, [], ◌∷◌, ◌≡◌, refl}
use dynamic_secret_operator.Api.{
  DynamicSecretPolicy, deployment, azure_key_vault, get_resolved_source,
}
use dynamic_secret_operator.Workload.Adapter.{
  deployment_adapter, new_adapter, build_canary, fetch, promote,
}
use dynamic_secret_operator.Integration.ArgoCd.{reconcile_argo_cd_ignore_differences}
use dynamic_secret_operator.Controller.Gc.{gc_old_secret_revisions}
use dynamic_secret_operator.Canary.Deployment.{build_canary_from_template}
use dynamic_secret_operator.Client.{
  Client, Result, ok, err, not_found, deployment_object, ◌>>=◌, ◌>>◌, lift, return, creating,
  ignore, attempt,
}
use dynamic_secret_operator.Source.Provider.{
  Registry, azure_key_vault_provider, get_provider, fetch_secret,
}
use dynamic_secret_operator.Source.Revision.{revision_hash}
use dynamic_secret_operator.Controller.Materialize.{materialize_secret_revision}
use dynamic_secret_operator.Controller.Validation.{desired_secret_name, reconcile_validation_probes}
use dynamic_secret_operator.Controller.Provision.{provision_network, uses_cilium}
use dynamic_secret_operator.Controller.Settle.{promote_target_workload}
use dynamic_secret_operator.Controller.Rotation.Progress.Rounds.{Holds, Runs, Provisions, Promotes}
use dynamic_secret_operator.Controller.Rotation.Progress.Completion.{
  IsDue, started_policy, validating_policy, rounds, rotation_completes,
}
use dynamic_secret_operator.Scenario.{fresh, legacy_spec, policy_of, offline, web}
use dynamic_secret_operator.Scenario.Conditions.{listed, find}
use dynamic_secret_operator.Scenario.Machine.{web_key}

abbrev new_policy : DynamicSecretPolicy
new_policy = policy_of (legacy_spec deployment []) fresh

abbrev missing {ℓ} : {A : Type ℓ} → DynamicSecretPolicy → Result A × DynamicSecretPolicy
missing s = (err not_found, s)

abbrev succeed : DynamicSecretPolicy → Result (Unit {0}) × DynamicSecretPolicy
succeed s = (ok tt, s)

abbrev steady : Client
steady = record {
  State = DynamicSecretPolicy;
  get_policy = λ k s. (ok s, s);
  patch_status = λ new base s. (ok tt, new);
  get_workload = λ k n s. (ok web, s);
  patch_workload = λ k w v. succeed;
  get_rollout = λ k. missing;
  get_secret = λ k. missing;
  get_job = λ k. missing;
  list_secrets = λ n l s. (ok [], s);
  list_jobs = λ n l s. (ok [], s);
  fetch_vault_secret = λ u n v s. (ok (codes "s3cr3t", codes "1"), s);
  read_secret = λ k. missing;
  unmarshal_object = λ t. none;
  sha256_hex = λ t. codes "0123456789abcdef";
  pem_blocks = λ t. [];
  get_application = λ k. missing;
  list_applications = λ s. (ok [], s);
  update_application = λ a. succeed;
  retry_on_conflict = λ m. m;
  auto_patch_enabled = false;
  get_deployment_created = λ k. missing;
  list_canary_pods = λ n l s. (ok [], s);
  create = λ o. succeed;
  delete = λ k n. succeed;
  set_controller_reference = λ p o. ok o;
  has_probe_runner = false;
  run_probe = λ p d. succeed;
  count_metric = λ m n s. s;
  now = λ s. (0, s);
  on_secret_materialized = λ n r. succeed;
}

abbrev registry : Registry
registry = (azure_key_vault, azure_key_vault_provider) ∷ []

abbrev held : DynamicSecretPolicy → DynamicSecretPolicy
held p = p

holds : Holds listed offline steady registry web_key held
holds = record {
  reads = λ s. refl;
  patches = λ new base s. (new, refl, refl);
  counts = λ m n s. refl;
  calls_back = λ n r s. refl;
}

abbrev revision : Text
revision = codes "0123456789ab"

due : IsDue listed revision new_policy
unfolding find
due = record { filled = cc; idle = refl; other = cc; no_rollout = refl }

materializes :
    Runs listed offline steady registry web_key held holds
      (materialize_secret_revision steady registry new_policy)
      revision
unfolding materialize_secret_revision ◌>>=◌ lift get_provider get_resolved_source text_eq
    fetch_secret ◌>>◌ creating return revision_hash
materializes s = (s, refl, refl)

provisions :
    Provisions listed offline steady registry web_key held holds
      (started_policy listed revision new_policy)
unfolding build_canary new_adapter fetch provision_network creating uses_cilium ◌>>=◌ lift
provisions =
    let p = started_policy listed revision new_policy in
    let made = build_canary_from_template (codes "web") p (desired_secret_name p) web.template in
    record {
      adapter = deployment_adapter;
      target = web;
      canary = made;
      adapts = refl;
      fetches = λ s. (s, refl, refl);
      builds = refl;
      owned = deployment_object made;
      owns = refl;
      creates = λ s. (s, refl, refl);
      networks = λ s. (s, refl, refl);
    }

promotes :
    Promotes listed offline steady registry web_key held holds
      (validating_policy listed revision new_policy)
unfolding reconcile_validation_probes promote_target_workload return ◌>>=◌ lift new_adapter fetch
    ◌>>◌ ignore promote gc_old_secret_revisions attempt reconcile_argo_cd_ignore_differences
promotes = record { passes = λ s. (s, refl, refl); promotes = λ s. (s, refl, refl) }

rotation_completes_example :
    ((rounds listed offline steady registry web_key 4 new_policy).status.current_revision
      ≡ revision)
    × ((rounds listed offline steady registry web_key 4 new_policy).status.desired_revision ≡ [])
    × ((rounds listed offline steady registry web_key 4 new_policy).status.consecutive_failures ≡ 0)
rotation_completes_example =
    rotation_completes listed offline steady registry web_key held holds revision new_policy due
      materializes provisions promotes new_policy refl
