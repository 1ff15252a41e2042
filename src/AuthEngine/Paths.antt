-- ===== src/AuthEngine/Paths.antt =====
-- plugins/vault-auth0-engine/backend: which handler serves which operation of which path, and the
-- backend that Vault sets up. The framework matches patterns and checks fields against schemas.
use vault_secrets_broker.Prelude.{◌*◌, Option, none, some, List, [], ◌∷◌}
use vault_secrets_broker.Exec.{Error, wrap, Result, ok, err}
use vault_secrets_broker.Net.{Env}
use vault_secrets_broker.Auth0.{second}
use vault_secrets_broker.Vault.{Base64}
use vault_secrets_broker.Engine.{
  required_text, plain_text, text_with_default, here, forwarded, Storage, Sdk, create_operation,
  update_operation, read_operation, literal, generic_name_with_at, EnginePath, FrameworkSecret,
  FrameworkBackend,
}
use vault_secrets_broker.AuthEngine.{config_exists, write_config, read_config}
use vault_secrets_broker.AuthEngine.Root.{rotate_root}
use vault_secrets_broker.AuthEngine.Leases.{
  secret_type, rotate_creds, check_status, revoke_creds, renew_creds,
}

unfoldable pub path_config : Storage → EnginePath
unfolding write_config read_config
path_config storage = record {
  pattern = literal "config/connection" ∷ [];
  fields =
      ("domain", required_text)
      ∷ ("client_id", required_text)
      ∷ ("client_secret", required_text)
      ∷ ("audience", required_text)
      ∷ ("transit_key", text_with_default "")
      ∷ [];
  existence_check = some (config_exists storage);
  operations =
      (create_operation, here (write_config storage))
      ∷ (update_operation, here (write_config storage))
      ∷ (read_operation, here (read_config storage))
      ∷ [];
}

module _ (env : Env) (storage : Storage) where
  unfoldable pub path_rotate_root : EnginePath
  path_rotate_root = record {
    pattern = literal "config/rotate-root" ∷ [];
    fields = [];
    existence_check = none;
    operations = (update_operation, forwarded (rotate_root env storage)) ∷ [];
  }

  unfoldable pub path_status : EnginePath
  path_status = record {
    pattern = literal "status/" ∷ generic_name_with_at "application_client_id" ∷ [];
    fields = ("application_client_id", plain_text) ∷ [];
    existence_check = none;
    operations = (read_operation, here (check_status env storage)) ∷ [];
  }

  module _ (base64 : Base64) (sdk : Sdk) where
    unfoldable pub path_creds : EnginePath
    path_creds = record {
      pattern = literal "creds/" ∷ generic_name_with_at "application_client_id" ∷ [];
      fields = ("application_client_id", plain_text) ∷ [];
      existence_check = none;
      operations = (read_operation, forwarded (rotate_creds env storage base64 sdk)) ∷ [];
    }

    unfoldable pub paths : List EnginePath
    unfolding path_config path_rotate_root path_creds path_status
    paths = path_config storage ∷ path_rotate_root ∷ path_creds ∷ path_status ∷ []

    unfoldable pub secret_auth0_creds : FrameworkSecret
    secret_auth0_creds = record {
      secret_type = secret_type;
      fields =
          ("application_client_id", plain_text)
          ∷ ("credential", plain_text)
          ∷ ("credential_ciphertext", plain_text)
          ∷ ("transit_key", plain_text)
          ∷ ("rotated_at", plain_text)
          ∷ [];
      default_duration = 24 * 3600 * second;
      renew = renew_creds sdk;
      revoke = revoke_creds env storage;
    }

    unfoldable pub backend : FrameworkBackend
    unfolding paths secret_auth0_creds
    backend = record {
      paths = paths;
      secrets = secret_auth0_creds ∷ [];
      seal_wrap_storage = "config/" ∷ [];
      running_version = "v0.1.0";
    }

    -- `setup` is the error of the framework's Setup.
    unfoldable pub factory : (setup : Option Error) → Result FrameworkBackend
    factory setup = elim setup [
      | some e ↦ err (wrap "vault-auth0-engine setup" e)
      | none ↦ ok backend
    ]
