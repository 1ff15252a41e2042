-- ===== src/AuthEngine.antt =====
-- plugins/vault-auth0-engine/backend: the Vault secrets engine for Auth0, paths.go and backend.go.
-- A handler takes the request and the fields of its path; its storage is a parameter.
pub mod Client
pub mod Equivalence
pub mod Paths
pub mod Config
pub mod Keeps
pub mod Moves
pub mod Runs
pub mod Secrets
pub mod Issued
pub mod Declared
pub mod Root
pub mod Leases
use Prim.Native.String.{◌++◌}
use vault_secrets_broker.Prelude.{
  ℕ, String, Bool, true, false, not, Option, none, some, List, [], ◌∷◌, ◌==◌, string_eq,
  if◌then◌else◌,
}
use vault_secrets_broker.Json.{Json, Fields, end, field, null, str, bool}
use vault_secrets_broker.Exec.{
  Error, msg, wrap, Result, ok, err, panic, Exec, pure, fail, crash, lift, require, ◌>>=◌, ◌>>◌,
  context, attempt,
}
use vault_secrets_broker.Net.{Time, World, Env, write_logical, time_now}
use vault_secrets_broker.Vault.{Base64, lookup_field, as_string}
use vault_secrets_broker.Engine.{
  rfc3339, value_of, text_of, get_string, Storage, FieldData, Request, Response, nil_response,
  error_response, data_response, secret_response, Sdk, storage_get, storage_put, decode_map,
  storage_entry_json, new_client,
}
use vault_secrets_broker.AuthEngine.Client.{
  Auth0Client, new_auth0_client, rotate_secret, app_active,
}

abbrev pub config_key : String
config_key = "config/connection"

-- cfg[key] = v
unfoldable pub set_field : String → Json → Fields → Fields
set_field key v end = field key v end
set_field key v (field k old fs) =
    let rest = set_field key v fs in if k == key then field k v fs else field k old rest

abbrev pub not_configured : Exec World Response
not_configured = pure (error_response "not configured — write config/connection first" none)

-- `d.GetOkErr(name)` with its two tests; `rest` is what follows them.
unfoldable pub required : FieldData → String → (String → Exec World Response) → Exec World Response
required d name rest = elim (d.get_ok_err name) [
  | ok given ↦
      if as_string given.0 == ""
      then pure (error_response (name ++ " is required") none)
      else rest (as_string given.0)
  | err e ↦ pure (error_response (name ++ ": ") (some e))
  | panic p ↦ crash p
]

-- The map that `writeConfig` stores.
abbrev pub connection : (domain client_id client_secret audience transit_key : String) → Fields
connection domain client_id client_secret audience transit_key = field "domain" (str domain) (
    field "client_id" (str client_id) (
      field "client_secret" (str client_secret)
        (field "audience" (str audience) (field "transit_key" (str transit_key) end))))

-- The Management API client of the stored configuration.
unfoldable pub client_of : Fields → Exec World Auth0Client
unfolding new_auth0_client
client_of cfg =
    new_auth0_client (text_of "domain" cfg) (text_of "client_id" cfg) (text_of "client_secret" cfg)
      (text_of "audience" cfg)

module _ (storage : Storage) where
  unfoldable pub config_exists : Request → FieldData → Exec World Bool
  config_exists req d = do
    entry ← storage_get storage config_key
    pure (elim entry [ none ↦ false | some doc ↦ true ])

  unfoldable pub get_config : Exec World (Option Fields)
  get_config = do
    entry ← context (wrap "read config") (storage_get storage config_key)
    elim entry [
      | none ↦ pure none
      | some doc ↦ context (wrap "decode config") (lift (decode_map doc))
    ]

  unfoldable pub store_connection : Fields → Exec World Response
  store_connection entry = do
    doc ← context (wrap "encode config") (lift (storage_entry_json storage config_key entry))
    context (wrap "store config") (storage_put storage config_key doc)
    pure nil_response

  unfoldable pub write_config : Request → FieldData → Exec World Response
  write_config req d = required d "domain" (λ domain. required d "client_id" (λ client_id.
      required d "client_secret" (λ client_secret. required d "audience" (λ audience. do
        transit_key ← get_string d "transit_key"
        store_connection (connection domain client_id client_secret audience transit_key)))))

  unfoldable pub read_config : Request → FieldData → Exec World Response
  read_config req d = do
    found ← get_config
    elim found [
      | none ↦ not_configured
      | some cfg ↦ pure (
          data_response (
            field "domain" (value_of "domain" cfg) (
              field "client_id" (value_of "client_id" cfg) (
                field "audience" (value_of "audience" cfg)
                  (field "transit_key" (value_of "transit_key" cfg) end)))))
    ]

module _ (env : Env) where
  -- time.Now().UTC().Format(time.RFC3339)
  abbrev pub timestamp : Exec World Json
  timestamp = do t ← time_now env; pure (str (env.format rfc3339 t))
