-- ===== src/Scenario/Watch.antt =====
-- The theorem on watch events, at a Secret that one policy ingests.
use mathlib.Core.List.{Memᴰ}
use dynamic_secret_operator.Prelude.{codes, some, List, [], ◌∷◌, ◌≢◌, ◌↔◌, refl}
use dynamic_secret_operator.Api.{DynamicSecretPolicy, deployment, k8s_secret, empty_source}
use dynamic_secret_operator.Api.Pods.{value_of}
use dynamic_secret_operator.Client.{ok, Secret, opaque}
use dynamic_secret_operator.Controller.Materialize.{label_managed}
use dynamic_secret_operator.Controller.Watch.{
  ListPolicies, request, find_policies_for_source_secret,
}
use dynamic_secret_operator.Controller.Watch.Requests.{AsksFor, find_policies_iff}
use dynamic_secret_operator.Scenario.{fresh, legacy_spec, policy_of}

-- A policy whose source is the Secret "db".
abbrev ingesting : DynamicSecretPolicy
ingesting =
    policy_of
      (record (legacy_spec deployment []) {
        source = some (record empty_source {
          type = k8s_secret;
          k8s_secret_source = some (record { name = codes "db" });
        });
      })
      fresh

abbrev policies : List DynamicSecretPolicy
policies = ingesting ∷ policy_of (legacy_spec deployment []) fresh ∷ []

abbrev list_policies : ListPolicies (Unit {0})
list_policies n s = (ok policies, s)

abbrev synchronized : Secret
synchronized = record {
  name = codes "db";
  namespace = codes "ns";
  labels = [];
  type = opaque;
  entries = [];
  resource_version = [];
}

find_policies_iff_example :
    Memᴰ (request ingesting) (find_policies_for_source_secret list_policies synchronized tt).0 ↔ (
      (value_of label_managed synchronized.labels ≢ codes "true")
      × AsksFor synchronized policies (request ingesting))
find_policies_iff_example =
    find_policies_iff list_policies synchronized tt tt policies (request ingesting) refl
