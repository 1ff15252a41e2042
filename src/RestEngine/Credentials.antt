-- ===== src/RestEngine/Credentials.antt =====
-- plugins/vault-rest-engine/backend/paths.go: creds/, which rotates a credential over the API of
-- cred-rotation-api and decrypts what comes back.
use Prim.Native.String.{◌++◌}
use vault_secrets_broker.Prelude.{
  String, not, Option, none, some, [], ◌∷◌, ◌==◌, nat_eq, string_eq, if◌then◌else◌, ◌>>=?◌,
}
use vault_secrets_broker.Prelude.Int.{pos}
use vault_secrets_broker.Prelude.Text
use vault_secrets_broker.Json.{
  Json, Fields, end, field, null, str, Payload, unmarshal, string_field, read_field,
}
use vault_secrets_broker.Exec.{
  msg, wrap, status, decode, ok, err, panic, Exec, pure, fail, crash, lift, or_fail, require, ◌>>=◌,
  ◌>>◌, context, attempt,
}
use vault_secrets_broker.Net.{
  Time, HttpRequest, quoted_body, World, Env, send, new_request, write_logical,
}
use vault_secrets_broker.Vault.{Base64}
use vault_secrets_broker.Engine.{
  Storage, FieldData, Request, Response, error_response, data_response, Sdk, new_client, text_of,
  rfc3339, get_string,
}
use vault_secrets_broker.Vault.Certificates.{Tls}
use vault_secrets_broker.RestEngine.{default_key, get_config, HttpClient, build_http_client}

pub record RotateApiResponse : Type 0 where
  pub provider_id : String
  pub encrypted_value : String
  pub rotated_at : Time

abbrev pub api_request : (api_url provider provider_id : String) → HttpRequest
api_request api_url provider provider_id = record {
  method = "POST";
  url = api_url ++ "/v1/credentials/rotate";
  headers = ("Content-Type", "application/json") ∷ [];
  body = quoted_body (("provider", provider) ∷ ("provider_id", provider_id) ∷ []);
}

-- The Transit key of a configuration.
abbrev pub key_of : Fields → String
key_of cfg = let key = text_of "transit_key" cfg in if key == "" then default_key else key

module _ (env : Env) where
  -- a `time.Time` field
  abbrev read_time : Json → Time → Option Time
  read_time null cur = some cur
  read_time (str s) cur = env.parse_time s
  read_time _ cur = none

  unfoldable pub decode_response : Payload → Option RotateApiResponse
  unfolding read_field
  decode_response body =
      unmarshal (record { provider_id = ""; encrypted_value = ""; rotated_at = pos 0 })
        (λ fs. string_field "provider_id" fs >>=? λ provider_id.
          string_field "encrypted_value" fs >>=? λ encrypted_value.
          read_field read_time "rotated_at" fs (pos 0) >>=? λ rotated_at. some (record {
            provider_id = provider_id;
            encrypted_value = encrypted_value;
            rotated_at = rotated_at;
          }))
        body

  -- The client decides over TLS alone, which shows as a refusal.
  unfoldable pub call_rotate_api :
      HttpClient → (api_url provider provider_id : String) → Exec World RotateApiResponse
  call_rotate_api client api_url provider provider_id = do
    req ←
        context (wrap "build request")
          (lift (new_request env (api_request api_url provider provider_id)))
    resp ← context (wrap "http") (send env req)
    require (resp.status == 200) (wrap "API" (status resp.status resp.body))
    out ← or_fail (wrap "parse response" decode) (decode_response resp.body)
    require (not (out.encrypted_value == "")) (msg "empty encrypted_value in response")
    pure out

  module _ (base64 : Base64) (sdk : Sdk) where
    unfoldable pub transit_decrypt : (key_name ciphertext : String) → Exec World String
    transit_decrypt key_name ciphertext = do
      context (wrap "new vault client") (new_client sdk)
      answer ← context (wrap "vault transit/decrypt") (
          write_logical env ("transit/decrypt/" ++ key_name)
            (field "ciphertext" (str ciphertext) end))
      elim answer [
        | none ↦ fail (msg "transit/decrypt: empty response")
        | some s ↦ do
          let encoded = text_of "plaintext" s.content
          require (not (encoded == "")) (msg "transit/decrypt: missing plaintext in response")
          or_fail (wrap "transit/decrypt: base64 decode" (msg "illegal base64 data"))
              (base64.decode_string encoded)
      ]

    -- `rotateCreds` after the call of the API
    unfoldable pub decrypt_and_answer :
        Fields → (provider provider_id : String) → RotateApiResponse → Exec World Response
    decrypt_and_answer cfg provider provider_id answer = do
      plaintext ←
          context (wrap "transit decrypt") (transit_decrypt (key_of cfg) answer.encrypted_value)
      pure (
          data_response (
            field "credential" (str plaintext) (
              field "provider" (str provider) (
                field "provider_id" (str provider_id)
                  (field "rotated_at" (str (env.format rfc3339 answer.rotated_at)) end)))))

    module _ (tls : Tls) where
      -- `rotateCreds` after the configuration is found
      unfoldable pub rotate_found : Fields → FieldData → Exec World Response
      unfolding Text.trim_slashes
      rotate_found cfg d = do
        provider ← get_string d "provider"
        provider_id ← get_string d "provider_id"
        client ← context (wrap "build http client") (build_http_client tls cfg)
        r ← attempt (
            call_rotate_api client (Text.trim_slashes (text_of "api_url" cfg)) provider provider_id)
        elim r [
          | ok answer ↦ decrypt_and_answer cfg provider provider_id answer
          | err e ↦ pure (error_response "rotation API call failed: " (some e))
          | panic p ↦ crash p
        ]

      unfoldable pub rotate_creds : Storage → Request → FieldData → Exec World Response
      rotate_creds storage req d = do
        found ← get_config storage
        elim found [
          | none ↦
              pure (error_response "plugin not configured — write config/connection first" none)
          | some cfg ↦ rotate_found cfg d
        ]
