-- ===== src/RestEngine.antt =====
-- plugins/vault-rest-engine/backend: the Vault secrets engine that calls cred-rotation-api, its
-- stored configuration and the HTTP client that it describes.
pub mod Credentials
pub mod Config
pub mod EndToEnd
pub mod Paths
use vault_secrets_broker.Prelude.{
  String, Bool, true, false, not, ◌||◌, ◌&&◌, Option, none, some, ◌==◌, string_eq, if◌then◌else◌,
}
use vault_secrets_broker.Json.{Fields, end, field, str}
use vault_secrets_broker.Exec.{
  Error, msg, wrap, Result, ok, err, panic, Exec, pure, crash, lift, ◌>>=◌, ◌>>◌, context,
}
use vault_secrets_broker.Net.{World}
use vault_secrets_broker.Vault.Certificates.{Tls}
use vault_secrets_broker.Vault.{as_string}
use vault_secrets_broker.Engine.{
  value_of, text_of, get_string, Storage, FieldData, Request, Response, nil_response,
  error_response, data_response, storage_get, storage_put, decode_map, storage_entry_json,
}

abbrev pub config_key : String
config_key = "config/connection"

abbrev pub default_key : String
default_key = "cred-rotation-key"

abbrev pub connection :
    (api_url transit_key tls_ca_cert tls_client_cert tls_client_key : String) → Fields
connection api_url transit_key tls_ca_cert tls_client_cert tls_client_key =
    field "api_url" (str api_url) (
      field "transit_key" (str transit_key) (
        field "tls_ca_cert" (str tls_ca_cert) (
          field "tls_client_cert" (str tls_client_cert)
            (field "tls_client_key" (str tls_client_key) end))))

module _ (storage : Storage) where
  unfoldable pub config_exists : Request → FieldData → Exec World Bool
  config_exists req d = do
    entry ← storage_get storage config_key
    pure (elim entry [ none ↦ false | some doc ↦ true ])

  unfoldable pub get_config : Exec World (Option Fields)
  get_config = do
    entry ← context (wrap "read config") (storage_get storage config_key)
    elim entry [
      | none ↦ pure none
      | some doc ↦ context (wrap "decode config") (lift (decode_map doc))
    ]

  -- `writeConfig` after its test of the URL
  unfoldable pub store_connection : (api_url : String) → FieldData → Exec World Response
  store_connection api_url d = do
    transit_key ← get_string d "transit_key"
    tls_ca_cert ← get_string d "tls_ca_cert"
    tls_client_cert ← get_string d "tls_client_cert"
    tls_client_key ← get_string d "tls_client_key"
    doc ← context (wrap "encode config") (
        lift (
          storage_entry_json storage config_key
            (connection api_url transit_key tls_ca_cert tls_client_cert tls_client_key)))
    context (wrap "store config") (storage_put storage config_key doc)
    pure nil_response

  unfoldable pub write_config : Request → FieldData → Exec World Response
  write_config req d = elim (d.get_ok_err "api_url") [
    | ok given ↦
        let api_url = as_string given.0 in
        if not given.1 || api_url == ""
        then pure (error_response "api_url is required" none)
        else store_connection api_url d
    | err e ↦ pure (error_response "api_url: " (some e))
    | panic p ↦ crash p
  ]

  unfoldable pub read_config : Request → FieldData → Exec World Response
  read_config req d = do
    found ← get_config
    elim found [
      | none ↦ pure (error_response "config not found — write config/connection first" none)
      | some cfg ↦ pure (
          data_response (
            field "api_url" (value_of "api_url" cfg)
              (field "transit_key" (value_of "transit_key" cfg) end)))
    ]

-- What the HTTP client trusts and shows; no root is the roots of the system.
pub record HttpClient : Type 0 where
  pub root_ca : Option String
  pub certificate : Option (String × String)

module _ (tls : Tls) where
  abbrev root_ca_of : Fields → Result (Option String)
  root_ca_of cfg =
      let ca = text_of "tls_ca_cert" cfg in
      if ca == ""
      then ok none
      else if tls.append_certs ca
      then ok (some ca)
      else err (msg "build http client: invalid CA cert PEM")

  abbrev certificate_of : Fields → Result (Option (String × String))
  certificate_of cfg =
      let cert = text_of "tls_client_cert" cfg in
      let key = text_of "tls_client_key" cfg in
      if not (cert == "") && not (key == "")
      then elim (tls.key_pair cert key) [
        | none ↦ ok (some (cert, key))
        | some e ↦ err (wrap "build http client: parse client cert/key" e)
      ]
      else ok none

  unfoldable pub build_http_client : Fields → Exec World HttpClient
  build_http_client cfg = do
    root_ca ← lift (root_ca_of cfg)
    certificate ← lift (certificate_of cfg)
    pure (record { root_ca = root_ca; certificate = certificate })
