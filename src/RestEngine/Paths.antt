-- ===== src/RestEngine/Paths.antt =====
-- plugins/vault-rest-engine/backend: which handler serves which operation of which path, and the
-- backend that Vault sets up.
use vault_secrets_broker.Prelude.{Option, none, some, List, [], ◌∷◌}
use vault_secrets_broker.Exec.{Error, wrap, Result, ok, err}
use vault_secrets_broker.Net.{Env}
use vault_secrets_broker.Vault.{Base64}
use vault_secrets_broker.Engine.{
  Storage, Sdk, required_text, plain_text, text_with_default, create_operation, update_operation,
  read_operation, here, forwarded, literal, generic_name, EnginePath, FrameworkBackend,
}
use vault_secrets_broker.Vault.Certificates.{Tls}
use vault_secrets_broker.RestEngine.{default_key, config_exists, write_config, read_config}
use vault_secrets_broker.RestEngine.Credentials.{rotate_creds}

unfoldable pub path_config : Storage → EnginePath
path_config storage = record {
  pattern = literal "config/connection" ∷ [];
  fields =
      ("api_url", required_text)
      ∷ ("transit_key", text_with_default default_key)
      ∷ ("tls_ca_cert", plain_text)
      ∷ ("tls_client_cert", plain_text)
      ∷ ("tls_client_key", plain_text)
      ∷ [];
  existence_check = some (config_exists storage);
  operations =
      (create_operation, here (write_config storage))
      ∷ (update_operation, here (write_config storage))
      ∷ (read_operation, here (read_config storage))
      ∷ [];
}

module _ (env : Env) (storage : Storage) (base64 : Base64) (sdk : Sdk) (tls : Tls) where
  unfoldable pub path_credentials : EnginePath
  path_credentials = record {
    pattern =
        literal "creds/" ∷ generic_name "provider" ∷ literal "/" ∷ generic_name "provider_id" ∷ [];
    fields = ("provider", plain_text) ∷ ("provider_id", plain_text) ∷ [];
    existence_check = none;
    operations = (read_operation, forwarded (rotate_creds env base64 sdk tls storage)) ∷ [];
  }

  unfoldable pub paths : List EnginePath
  unfolding path_config path_credentials
  paths = path_config storage ∷ path_credentials ∷ []

  unfoldable pub backend : FrameworkBackend
  unfolding paths
  backend = record {
    paths = paths;
    secrets = [];
    seal_wrap_storage = "config/" ∷ [];
    running_version = "v0.1.0";
  }

  -- `setup` is the error of the framework's Setup.
  unfoldable pub factory : (setup : Option Error) → Result FrameworkBackend
  factory setup = elim setup [ some e ↦ err (wrap "vault-rest-engine setup" e) | none ↦ ok backend ]
