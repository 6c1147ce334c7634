-- ===== src/Azure/Auth.antt =====
-- `NewAzureCredential` of internal/azure/auth.go.
use dynamic_secret_operator.Prelude.{Text, codes, is_empty, true, false, ◌++◌}
use dynamic_secret_operator.Client.{Result, failed, ◌>>◌, return, fail}

-- The environment, the file system and azidentity, whose credential has the type `C`.
pub record Platform (C : Type 0) : Type 1 where
  pub State : Type 0
  -- `os.Getenv`: the empty text where a variable is not set.
  pub getenv : Text → Text
  -- `os.Stat`, as far as its error goes.
  pub stat : Text → State → Result (Unit {0}) × State
  pub new_workload_identity_credential : State → Result C × State

abbrev pub env_azure_federated_token_file : Text
env_azure_federated_token_file = codes "AZURE_FEDERATED_TOKEN_FILE"

abbrev pub env_azure_client_id : Text
env_azure_client_id = codes "AZURE_CLIENT_ID"

abbrev pub env_azure_tenant_id : Text
env_azure_tenant_id = codes "AZURE_TENANT_ID"

module _ {C : Type 0} (platform : Platform C) where
  open platform use {State, getenv, stat, new_workload_identity_credential}

  -- An environment variable that has to be set.
  abbrev require : Text → State → Result (Unit {0}) × State
  require name = elim (is_empty (getenv name)) [
    | true ↦ fail (failed (codes "required environment variable is not set: " ++ name))
    | false ↦ return tt
  ]

  unfoldable pub new_azure_credential : State → Result C × State
  new_azure_credential = do
    require env_azure_federated_token_file
    require env_azure_client_id
    require env_azure_tenant_id
    stat (getenv env_azure_federated_token_file)
    new_workload_identity_credential
