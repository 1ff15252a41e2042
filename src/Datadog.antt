-- ===== src/Datadog.antt =====
-- cred-rotation-api/adapter/datadog/datadog.go.
-- `new` is the constructor without the options, which set a test server's URL and a logger.
pub mod Keys
pub mod Creation
pub mod Lifecycle
pub mod OldKey
pub mod Revocation
pub mod Rotation
use Prim.Native.String.{◌++◌}
use vault_secrets_broker.Prelude.{
  ℕ, String, Bool, true, false, not, ◌||◌, ◌&&◌, Option, none, some, List, [], ◌∷◌, ◌==◌, nat_eq,
  string_eq, if◌then◌else◌, lookup_nonempty, ◌>>=?◌,
}
use vault_secrets_broker.Prelude.Text
use vault_secrets_broker.Json.{
  Json, Items, nil, cons, Fields, end, field, null, str, arr, obj, Payload, unmarshal, read_field,
  read_string,
}
use vault_secrets_broker.Exec.{
  Error, msg, named, wrap, about, status, status_only, decode, Result, ok, err, panic, Exec, pure,
  fail, lift, or_fail, require, ◌>>=◌, ◌>>◌, finally, map_err, context,
}
use vault_secrets_broker.Net.{
  Time, Body, empty_body, json_body, HttpRequest, HttpResponse, Cleanup, World, Env, send,
  new_request, time_now, acquire_slot, release_slot, log,
}
use vault_secrets_broker.Adapter.{RotateRequest, RevokeRequest, CredentialStatus, Rotated, Adapter}
use vault_secrets_broker.Adapter.Shared.{sanitize_for_log, random_hex, launch_for, drain_within}
use vault_secrets_broker.Datadog.Keys.{KeyData, decode_data, scopes_of}

abbrev pub adapter_name : String
adapter_name = "datadog"

abbrev default_base_url : String
default_base_url = "https://api.datadoghq.com"

abbrev pub token_time_fmt : String
token_time_fmt = "20060102T150405.000Z"

abbrev pub key_type_api : String
key_type_api = "api_key"

abbrev pub key_type_app : String
key_type_app = "app_key"

pub record Config : Type 0 where
  pub admin_api_key : String
  pub admin_app_key : String
  pub base_url : String
  pub key_type : String

-- `Adapter` of the package; its semaphore and wait group are in the world.
pub record Datadog : Type 0 where
  pub base_url : String
  pub admin_api_key : String
  pub admin_app_key : String
  pub key_type : String

unfoldable pub new : Config → Result Datadog
unfolding Text.trim_slashes
new cfg =
    let key_type = if cfg.key_type == "" then key_type_api else cfg.key_type in
    let base_url = if cfg.base_url == "" then default_base_url else cfg.base_url in
    if cfg.admin_api_key == ""
    then err (msg "datadog: AdminAPIKey is required")
    else if cfg.admin_app_key == ""
    then err (msg "datadog: AdminAppKey is required")
    else if not (key_type == key_type_api) && not (key_type == key_type_app)
    then err (named "datadog: KeyType must be api_key or app_key, got" key_type)
    else ok (record {
      base_url = Text.trim_slashes base_url;
      admin_api_key = cfg.admin_api_key;
      admin_app_key = cfg.admin_app_key;
      key_type = key_type;
    })

module _ (env : Env) (a : Datadog) where
  -- The document that json.Marshal writes: it has the keys of a map in order.
  unfoldable pub build_create_body : String → List (String × String) → Json
  unfolding scopes_of Text.split_commas lookup_nonempty
  build_create_body name meta =
      let scopes : Items = elim (lookup_nonempty "scopes" meta) [
        | none ↦ nil
        | some s ↦ scopes_of (Text.split_commas s)
      ] in
      if a.key_type == key_type_app
      then obj (
          field "data"
            (obj (
              field "attributes" (obj (field "name" (str name) (field "scopes" (arr scopes) end)))
                (field "type" (str "application_keys") end)))
            end)
      else obj (
          field "data"
            (obj (
              field "attributes" (obj (field "name" (str name) end))
                (field "type" (str "api_keys") end)))
            end)

  unfoldable pub collection_path : String
  collection_path =
      if a.key_type == key_type_app then "/api/v2/application_keys" else "/api/v2/api_keys"

  unfoldable pub key_path : String → String
  key_path id =
      if a.key_type == key_type_app
      then "/api/v2/application_keys/" ++ id
      else "/api/v2/api_keys/" ++ id

  -- `do`
  unfoldable pub request : (method endpoint : String) → Option Json → Exec World HttpResponse
  request method endpoint body = do
    req ← context (wrap "build request") (
        lift (
          new_request env (record {
            method = method;
            url = endpoint;
            headers =
                ("DD-API-KEY", a.admin_api_key)
                ∷ ("DD-APPLICATION-KEY", a.admin_app_key)
                ∷ ("Accept", "application/json")
                ∷ elim body [ none ↦ [] | some _ ↦ ("Content-Type", "application/json") ∷ [] ];
            body = elim body [ none ↦ empty_body | some b ↦ json_body b ];
          })))
    context (wrap "http") (send env req)

  -- the new key's id and value
  unfoldable pub create_key : String → List (String × String) → Exec World (String × String)
  unfolding request build_create_body collection_path decode_data
  create_key name meta = do
    resp ←
        context (about "create key" name)
          (request "POST" (a.base_url ++ collection_path) (some (build_create_body name meta)))
    require (resp.status == 201) (about "create key" name (status resp.status resp.body))
    result ←
        or_fail (about "create key" name (wrap "parse response" decode)) (decode_data resp.body)
    require (not (result.id == "")) (about "create key" name (msg "id missing in response"))
    require (not (result.attributes.key == ""))
        (about "create key" name (msg "key value missing in response"))
    pure (result.id, result.attributes.key)

  unfoldable pub delete_key : String → Exec World Unit
  unfolding request key_path
  delete_key id = do
    resp ← context (about "delete key" id) (request "DELETE" (a.base_url ++ key_path id) none)
    require (resp.status == 204 || resp.status == 404)
        (about "delete key" id (status resp.status resp.body))

  -- the body of the goroutine that `Rotate` starts, with its `recover`
  unfoldable pub cleanup : Cleanup → Exec World Unit
  unfolding delete_key sanitize_for_log
  cleanup c w =
      let (r, w') = delete_key c.old_id w in
      elim r [
        | ok _ ↦ (ok tt, w')
        | err e ↦
            log "WARN" "datadog: best-effort delete of old key failed"
              (("old_key_id", sanitize_for_log c.old_id)
                ∷ ("provider_id", sanitize_for_log c.provider_id)
                ∷ [])
              (some e) w'
        | panic p ↦ log "ERROR" "datadog: cleanup goroutine panic" (("panic", p) ∷ []) none w'
      ]

  -- `Rotate` while it holds its slot
  unfoldable pub rotate_held : RotateRequest → Exec World Rotated
  rotate_held req = do
    suffix ← context (wrap "datadog rotate: generate name suffix") (random_hex env 2)
    t ← time_now env
    let name = req.provider_id ++ "-" ++ env.format token_time_fmt t ++ "-" ++ suffix
    created ← context (wrap "datadog rotate") (create_key name req.meta)
    launch_for adapter_name req.provider_id (lookup_nonempty "old_key_id" req.meta)
    rotated_at ← time_now env
    pure (record {
      provider_id = req.provider_id;
      credential_id = created.0;
      credential = created.1;
      rotated_at = rotated_at;
    })

  unfoldable pub rotate : RotateRequest → Exec World Rotated
  rotate req = do
    context (wrap "datadog rotate: acquire slot") (acquire_slot env adapter_name)
    finally (rotate_held req) (release_slot adapter_name)

  unfoldable pub drain : Exec World Unit
  unfolding drain_within cleanup
  drain w = drain_within adapter_name cleanup (env.deadline w.trace adapter_name) w

  unfoldable pub revoke : RevokeRequest → Exec World Unit
  unfolding delete_key
  revoke req = do
    require (not (req.credential_id == ""))
        (msg "datadog revoke: credential_id is required — refusing to skip revocation")
    context (wrap "datadog revoke") (delete_key req.credential_id)

  unfoldable pub check_status : String → Exec World CredentialStatus
  unfolding request key_path
  check_status id = do
    require (not (id == "")) (msg "datadog status: credential_id is required")
    resp ← context (wrap "datadog status") (request "GET" (a.base_url ++ key_path id) none)
    require (resp.status == 200 || resp.status == 404)
        (wrap "datadog status" (status_only resp.status))
    t ← time_now env
    pure (record {
      provider_id = id;
      credential_id = id;
      active = resp.status == 200;
      checked_at = t;
    })

  unfoldable pub adapter : Adapter
  unfolding rotate revoke check_status drain
  adapter = record {
    name = adapter_name;
    rotate = rotate;
    revoke = revoke;
    status = check_status;
    drain = some drain;
  }
