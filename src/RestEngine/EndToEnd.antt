-- ===== src/RestEngine/EndToEnd.antt =====
-- The REST engine, the API and Vault together.
use Prim.Native.String.{◌++◌}
use vault_secrets_broker.Prelude.{String, ◌≡◌, ◌≢◌, none, some, List, arith, eq_iff, string_eq}
use vault_secrets_broker.Prelude.Text
use vault_secrets_broker.Json.{Fields, end, field, str, read_field}
use vault_secrets_broker.Exec.{ok}
use vault_secrets_broker.Net.{Event, World, Env, Secret, secret, response}
use vault_secrets_broker.Adapter.{RotateResponse}
use vault_secrets_broker.Vault.{Base64, transit_encrypt, lookup_field}
use vault_secrets_broker.Vault.Transit.{Honest, Decodes, transit_encrypt-ok}
use vault_secrets_broker.Server.{Request, Response}
use vault_secrets_broker.Server.Wire.{encode_rotated, rfc3339_nano}
use vault_secrets_broker.Server.Handlers.{Handlers}
use vault_secrets_broker.Server.Handlers.Laws.{Success}
use vault_secrets_broker.Engine
use vault_secrets_broker.Engine.{
  Storage, FieldData, data_response, Sdk, text_of, get_string, rfc3339,
}
use vault_secrets_broker.Vault.Certificates.{Tls}
use vault_secrets_broker.RestEngine.{get_config, HttpClient, build_http_client}
use vault_secrets_broker.RestEngine.Credentials.{
  decode_response, call_rotate_api, api_request, transit_decrypt, key_of, decrypt_and_answer,
  rotate_found, rotate_creds,
}

module _ (env : Env) where
  decode-encode_rotated :
      (out : RotateResponse)
      → env.parse_time (env.format rfc3339_nano out.rotated_at) ≡ some out.rotated_at
      → decode_response env (some (encode_rotated env out))
        ≡ some (record {
          provider_id = out.provider_id;
          encrypted_value = out.encrypted_value;
          rotated_at = out.rotated_at;
        })
  unfolding decode_response encode_rotated read_field
  decode-encode_rotated out reads = ground arith

  call_rotate_api-ok :
      (client : HttpClient) (url provider id : String) (out : RotateResponse) (w : World)
      → env.parse_time (env.format rfc3339_nano out.rotated_at) ≡ some out.rotated_at
      → env.bad_request "POST" (url ++ "/v1/credentials/rotate") ≡ none
      → env.respond w.trace (api_request url provider id)
        ≡ response (record { status = 200; body = some (encode_rotated env out) })
      → out.encrypted_value ≢ ""
      → (call_rotate_api env client url provider id w).0
        ≡ ok (record {
          provider_id = out.provider_id;
          encrypted_value = out.encrypted_value;
          rotated_at = out.rotated_at;
        })
  unfolding call_rotate_api
  call_rotate_api-ok client url provider id out w reads fine replied there =
      ground (arith, decode-encode_rotated out reads, eq_iff out.encrypted_value "")

  module _ (base64 : Base64) where
    transit_encrypt-nonempty :
        (key p ct : String) (w : World) → (transit_encrypt env base64 key p w).0 ≡ ok ct → ct ≢ ""
    unfolding transit_encrypt
    transit_encrypt-nonempty key p ct w e = ground (arith, eq_iff ct "")

    transit_decrypt-ok :
        (sdk : Sdk) (key ct p token : String) (w : World) (s : Secret)
        → sdk.new_client w.trace ≡ ok token
        → env.vault_write w.trace token
            ("transit/decrypt/" ++ key)
            (field "ciphertext" (str ct) end)
          ≡ secret s
        → lookup_field "plaintext" s.content ≡ some (str (base64.encode_to_string p))
        → base64.encode_to_string p ≢ ""
        → base64.decode_string (base64.encode_to_string p) ≡ some p
        → (transit_decrypt env base64 sdk key ct w).0 ≡ ok p
    unfolding transit_decrypt text_of
    transit_decrypt-ok sdk key ct p token w s new wrote found there decoded =
        ground (arith, eq_iff (base64.encode_to_string p) "")

    -- The engine
    module _ (h : Handlers) (r : Request) (w : World) (resp : Response)
        (s : Success env base64 h r w resp) (storage : Storage) (tls : Tls) (sdk : Sdk) where
      abbrev pub answer : RotateResponse
      answer = record {
        provider_id = s.result.provider_id;
        encrypted_value = s.ciphertext;
        rotated_at = s.result.rotated_at;
      }

      -- If the engine's request is answered with the body that the API encodes for a
      -- rotation that its handler answered with 200, the engine answers with the very
      -- credential that the adapter got from the provider. The engine is configured with
      -- the API's Transit key, its HTTP client can be built, Vault decrypts what it has
      -- encrypted, base64 decodes, and the time in the answer is read as it was written;
      -- the credential's base64 text is not empty.
      pub rotate_creds-rotate :
          Honest env base64 h.transit_key_name
          → Decodes env base64 h.transit_key_name
          → env.parse_time (env.format rfc3339_nano s.result.rotated_at) ≡ some s.result.rotated_at
          → (cfg : Fields) (provider id token : String) (client : HttpClient)
          → (req : Engine.Request) (d : FieldData) (u u' : World)
          → get_config storage u ≡ (ok (some cfg), u')
          → key_of cfg ≡ h.transit_key_name
          → d.get "provider" ≡ ok (some (str provider))
          → d.get "provider_id" ≡ ok (some (str id))
          → build_http_client tls cfg u' ≡ (ok client, u')
          → env.bad_request "POST"
              (Text.trim_slashes (text_of "api_url" cfg) ++ "/v1/credentials/rotate")
            ≡ none
          → env.respond u'.trace
              (api_request (Text.trim_slashes (text_of "api_url" cfg)) provider id)
            ≡ response (record { status = 200; body = some (encode_rotated env answer) })
          → ((es : List Event) → sdk.new_client es ≡ ok token)
          → base64.encode_to_string s.result.credential ≢ ""
          → (rotate_creds env base64 sdk tls storage req d u).0
            ≡ ok (
                data_response (
                  field "credential" (str s.result.credential) (
                    field "provider" (str provider) (
                      field "provider_id"
                        (str id)
                        (field "rotated_at" (str (env.format rfc3339 s.result.rotated_at)) end)))))
      unfolding rotate_creds rotate_found decrypt_and_answer get_string
      rotate_creds-rotate honest decodes reads cfg provider id token client req d u u' found same
            has_provider has_id built fine replied new there =
          let url = Text.trim_slashes (text_of "api_url" cfg) in
          let m = call_rotate_api env client url provider id u' in
          let (wrote, was, gave) =
            transit_encrypt-ok env base64 h.transit_key_name s.result.credential s.ciphertext
              s.after s.encrypted in
          let (back, read, text) =
            honest s.after.trace m.1.trace s.after.token token
              (base64.encode_to_string s.result.credential) s.ciphertext wrote was gave in
          ground (
            arith,
            call_rotate_api-ok client url provider id answer u' reads fine replied (
                transit_encrypt-nonempty h.transit_key_name s.result.credential s.ciphertext s.after
                  s.encrypted),
            transit_decrypt-ok sdk h.transit_key_name s.ciphertext s.result.credential token m.1
                back (new m.1.trace) read text there (decodes s.result.credential),
          )
