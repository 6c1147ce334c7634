-- ===== src/Scenario/KeyVault.antt =====
-- The theorems on the fetcher of a key vault, at a vault with one secret.
use dynamic_secret_operator.Prelude.{codes, some, [], ◌∷◌, ◌++◌, ◌≡◌, ◌⊎◌, refl, any, IsPart}
use dynamic_secret_operator.Api.{
  SecretSource, AzureKeyVaultSource, deployment, secret_object, azure_key_vault, empty_source,
}
use dynamic_secret_operator.Client.{Client, ok, err, Error}
use dynamic_secret_operator.Probes.Sql.{contains_any}
use dynamic_secret_operator.Probes.Sql.Address.{contains_any-IsPart}
use dynamic_secret_operator.Source.Provider.{fetch_azure}
use dynamic_secret_operator.Azure.KeyVault.{
  SecretPayload, SecretResponse, Sdk, success, error, get_secret,
}
use dynamic_secret_operator.Azure.KeyVault.Fetch.{
  Answered, Refused, get_secret_settles, vault_answer, fetch_azure-get_secret,
}
use dynamic_secret_operator.Scenario.{World, fresh, legacy_spec, policy_of, cluster}

abbrev response : SecretResponse
response = record {
  value = some (codes "s3cr3t");
  id = some (codes "https://v/secrets/db" ++ (b'/' ∷ codes "7a"));
}

abbrev sdk : Sdk World
sdk = record {
  new_client = λ u. ok tt;
  get_secret = λ u n v s. (ok response, s);
  observe_latency = λ u status s. s;
}

abbrev vault_client : Client
vault_client = record (cluster (policy_of (legacy_spec deployment []) fresh)) {
  fetch_vault_secret = λ u n v s. vault_answer (get_secret sdk u n v s);
}

abbrev empty_world : World
empty_world = record { patches = []; promotions = 0 }

get_secret_settles_example :
    ((p : SecretPayload) × (t : World) × Answered sdk
        (codes "https://v")
        (codes "db")
        []
        empty_world
        p
        t
      × (get_secret sdk (codes "https://v") (codes "db") [] empty_world
          ≡ (ok p, sdk.observe_latency (codes "https://v") success t)))
    ⊎ ((e : Error) × (t : World) × Refused sdk (codes "https://v") (codes "db") [] empty_world t
        × (get_secret sdk (codes "https://v") (codes "db") [] empty_world
            ≡ (err e, sdk.observe_latency (codes "https://v") error t)))
get_secret_settles_example = get_secret_settles sdk (codes "https://v") (codes "db") [] empty_world

abbrev vault : AzureKeyVaultSource
vault = record {
  key_vault_uri = codes "https://v";
  object_name = codes "db";
  object_type = secret_object;
}

abbrev source : SecretSource
source = record empty_source { type = azure_key_vault; azure_key_vault_source = some vault }

version_has_no_slash : IsPart b'/' (codes "7a")
unfolding any contains_any
version_has_no_slash = contains_any-IsPart (codes "/") b'/' (codes "7a") refl refl

fetch_azure-get_secret_example : fetch_azure vault_client source empty_world ≡ (
  ok (record { entries = (codes "db", codes "s3cr3t") ∷ []; version = codes "7a" }),
  empty_world,
)
fetch_azure-get_secret_example =
    fetch_azure-get_secret vault_client sdk (λ u n v s. refl) source vault empty_world empty_world
      response (codes "s3cr3t") (codes "https://v/secrets/db") (codes "7a") refl refl refl refl refl
      refl refl refl version_has_no_slash
