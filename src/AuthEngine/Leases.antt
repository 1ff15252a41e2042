-- ===== src/AuthEngine/Leases.antt =====
-- plugins/vault-auth0-engine/backend/paths.go: the leases of creds/, and status/.
use Prim.Native.String.{◌++◌}
use vault_secrets_broker.Prelude.{String, not, none, some, ◌==◌, string_eq, if◌then◌else◌}
use vault_secrets_broker.Json.{Json, Fields, end, field, str, bool}
use vault_secrets_broker.Exec.{
  Error, msg, wrap, ok, err, panic, Exec, pure, fail, crash, require, ◌>>=◌, ◌>>◌, context, attempt,
}
use vault_secrets_broker.Net.{World, Env, write_logical}
use vault_secrets_broker.Vault.{Base64}
use vault_secrets_broker.Engine.{
  text_of, get_string, Storage, FieldData, Request, Response, nil_response, error_response,
  data_response, secret_response, Sdk, new_client,
}
use vault_secrets_broker.AuthEngine.Client.{rotate_secret, app_active}
use vault_secrets_broker.AuthEngine.{not_configured, client_of, get_config, timestamp}

abbrev pub secret_type : String
secret_type = "auth0_creds"

module _ (storage : Storage) where
  -- `rotateCreds` and `checkStatus` up to the client: the configuration and the application.
  unfoldable pub for_application :
      FieldData → (Fields → String → Exec World Response) → Exec World Response
  for_application d rest = do
    found ← get_config storage
    elim found [
      | none ↦ not_configured
      | some cfg ↦ do
        id ← get_string d "application_client_id"
        (if id == ""
            then pure (error_response "application_client_id is required" none)
            else rest cfg id)
    ]

module _ (env : Env) where
  module _ (base64 : Base64) (sdk : Sdk) where
    unfoldable pub transit_encrypt : (key_name plaintext : String) → Exec World String
    transit_encrypt key_name plaintext = do
      context (wrap "new vault client") (new_client sdk)
      answer ← context (wrap "vault transit/encrypt") (
          write_logical env ("transit/encrypt/" ++ key_name)
            (field "plaintext" (str (base64.encode_to_string plaintext)) end))
      elim answer [
        | none ↦ fail (msg "transit/encrypt: empty response")
        | some s ↦ do
          let ct = text_of "ciphertext" s.content
          require (not (ct == "")) (msg "transit/encrypt: missing ciphertext in response")
          pure ct
      ]

    -- what `data` holds before the credential is put into it
    abbrev issued : Json → (id : String) → Fields → Fields
    issued rotated_at id rest =
        field "application_client_id" (str id) (field "rotated_at" rotated_at rest)

    -- The answer to a rotation: the new secret, encrypted where a Transit key is configured.
    unfoldable pub issue : (transit_key id new_secret : String) → Exec World Response
    issue transit_key id new_secret = do
      rotated_at ← timestamp env
      let internal = field "application_client_id" (str id) end
      let plain = pure (
          secret_response secret_type
            (issued rotated_at id (field "credential" (str new_secret) end)) internal)
      let encrypted = (do
        ciphertext ← context (wrap "transit encrypt") (transit_encrypt transit_key new_secret)
        pure (
            secret_response secret_type
              (issued rotated_at id (
                field "credential_ciphertext" (str ciphertext)
                  (field "transit_key" (str transit_key) end)))
              internal))
      if transit_key == "" then plain else encrypted

  module _ (storage : Storage) where
    module _ (base64 : Base64) (sdk : Sdk) where
      unfoldable pub rotate_application : Fields → (id : String) → Exec World Response
      rotate_application cfg id = do
        client ← client_of cfg
        r ← attempt (rotate_secret env client id)
        elim r [
          | ok new_secret ↦ issue base64 sdk (text_of "transit_key" cfg) id new_secret
          | err e ↦ pure (error_response "rotation failed: " (some e))
          | panic p ↦ crash p
        ]

      unfoldable pub rotate_creds : Request → FieldData → Exec World Response
      rotate_creds req d = for_application storage d rotate_application

    unfoldable pub check_application : Fields → (id : String) → Exec World Response
    check_application cfg id = do
      client ← client_of cfg
      r ← attempt (app_active env client id)
      elim r [
        | ok active ↦ do
          checked_at ← timestamp env
          pure (
              data_response (
                field "application_client_id" (str id)
                  (field "active" (bool active) (field "checked_at" checked_at end))))
        | err e ↦ pure (error_response "status check failed: " (some e))
        | panic p ↦ crash p
      ]

    unfoldable pub check_status : Request → FieldData → Exec World Response
    check_status req d = for_application storage d check_application

    -- Revocation rotates the secret once more, and gives the new one to nobody.
    unfoldable pub revoke_application : (id : String) → Exec World Response
    revoke_application id = do
      found ← get_config storage
      elim found [
        | none ↦ fail (msg "revoke: plugin not configured")
        | some cfg ↦ do
          client ← client_of cfg
          context (wrap "revoke: Auth0 rotation to invalidate credential failed")
              (rotate_secret env client id)
          pure nil_response
      ]

    abbrev no_id : Error
    no_id =
        msg "revoke: missing application_client_id in internal data — refusing to skip revocation"

    unfoldable pub revoke_creds : Request → FieldData → Exec World Response
    revoke_creds req d = elim req.internal_data [
      | none ↦ crash "invalid memory address or nil pointer dereference"
      | some internal ↦
          let id = text_of "application_client_id" internal in
          if id == "" then fail no_id else revoke_application id
    ]

unfoldable pub renew_creds : Sdk → Request → FieldData → Exec World Response
renew_creds sdk req d = sdk.lease_extend 0 0 req d
