-- ===== src/AuthEngine/Root.antt =====
-- plugins/vault-auth0-engine/backend/paths.go: config/rotate-root.
use vault_secrets_broker.Prelude.{String, none, some, string_eq}
use vault_secrets_broker.Json.{Fields, end, field, str}
use vault_secrets_broker.Exec.{wrap, Exec, pure, lift, ◌>>=◌, ◌>>◌, context}
use vault_secrets_broker.Net.{World, Env}
use vault_secrets_broker.Engine.{
  text_of, Storage, FieldData, Request, Response, data_response, storage_put, storage_entry_json,
}
use vault_secrets_broker.AuthEngine.Client.{rotate_secret}
use vault_secrets_broker.AuthEngine.{
  config_key, set_field, not_configured, client_of, get_config, timestamp,
}

abbrev rotated_message : String
rotated_message =
    "Management API client_secret rotated and stored. The previous secret is permanently invalidated."

module _ (env : Env) (storage : Storage) where
  unfoldable pub store_rotated : Fields → (new_secret : String) → Exec World Response
  store_rotated cfg new_secret = do
    doc ← context (wrap "rotate-root: encode updated config") (
        lift
          (storage_entry_json storage config_key (set_field "client_secret" (str new_secret) cfg)))
    context (wrap "rotate-root: store updated config") (storage_put storage config_key doc)
    rotated_at ← timestamp env
    pure (
        data_response (
          field "rotated_at" rotated_at (
            field "client_id" (str (text_of "client_id" cfg))
              (field "message" (str rotated_message) end))))

  -- `rotateRoot` after the configuration is found
  unfoldable pub rotate_found : Fields → Exec World Response
  rotate_found cfg = do
    client ← client_of cfg
    new_secret ←
        context (wrap "rotate-root: Auth0 rotation failed")
          (rotate_secret env client (text_of "client_id" cfg))
    store_rotated cfg new_secret

  unfoldable pub rotate_root : Request → FieldData → Exec World Response
  rotate_root req d = do
    found ← get_config storage
    elim found [ none ↦ not_configured | some cfg ↦ rotate_found cfg ]
