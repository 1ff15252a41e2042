-- ===== src/PagerDuty.antt =====
-- cred-rotation-api/adapter/pagerduty/pagerduty.go.
-- `new` is the constructor without the options, which set a test server's URL and a logger.
pub mod Keys
pub mod OldKey
pub mod Revocation
pub mod Rotation
use Prim.Native.String.{◌++◌}
use vault_secrets_broker.Prelude.{
  ℕ, String, Bool, true, false, not, ◌||◌, ◌&&◌, Option, none, some, List, [], ◌∷◌, ◌==◌, nat_eq,
  string_eq, if◌then◌else◌, lookup_nonempty, ◌>>=?◌,
}
use vault_secrets_broker.Prelude.Text
use vault_secrets_broker.Json.{
  Json, Items, nil, cons, Fields, end, field, null, str, arr, obj, Payload, unmarshal, read_field,
  read_string, read_bool,
}
use vault_secrets_broker.Exec.{
  Error, msg, named, wrap, about, status, decode, Result, ok, err, panic, Exec, pure, fail, lift,
  or_fail, require, ◌>>=◌, ◌>>◌, finally, map_err, context,
}
use vault_secrets_broker.Net.{
  Time, Body, empty_body, json_body, HttpRequest, HttpResponse, Cleanup, World, Env, send,
  new_request, time_now, acquire_slot, release_slot, log,
}
use vault_secrets_broker.Adapter.{RotateRequest, RevokeRequest, CredentialStatus, Rotated, Adapter}
use vault_secrets_broker.Adapter.Shared.{sanitize_for_log, random_hex, launch_for, drain_within}
use vault_secrets_broker.PagerDuty.Keys.{PdKey, KeyList, decode_key, decode_list, has_key}

abbrev pub adapter_name : String
adapter_name = "pagerduty"

abbrev default_base_url : String
default_base_url = "https://api.pagerduty.com"

abbrev pub token_time_fmt : String
token_time_fmt = "20060102T150405Z"

abbrev pub pd_accept : String
pd_accept = "application/vnd.pagerduty+json;version=2"

pub record Config : Type 0 where
  pub api_key : String
  pub email : String
  pub base_url : String

-- `Adapter` of the package; its semaphore and wait group are in the world.
pub record PagerDuty : Type 0 where
  pub base_url : String
  pub api_key : String
  pub email : String

unfoldable pub new : Config → Result PagerDuty
unfolding Text.trim_slashes
new cfg =
    let base_url = if cfg.base_url == "" then default_base_url else cfg.base_url in
    if cfg.api_key == ""
    then err (msg "pagerduty: APIKey is required")
    else if cfg.email == ""
    then err (msg "pagerduty: Email is required (PagerDuty From header)")
    else ok
        (record { base_url = Text.trim_slashes base_url; api_key = cfg.api_key; email = cfg.email })

module _ (env : Env) (a : PagerDuty) where
  -- `do`
  unfoldable pub request : (method endpoint : String) → Option Json → Exec World HttpResponse
  request method endpoint body = do
    req ← context (wrap "build request") (
        lift (
          new_request env (record {
            method = method;
            url = endpoint;
            headers =
                ("Authorization", "Token token=" ++ a.api_key)
                ∷ ("Accept", pd_accept)
                ∷ ("From", a.email)
                ∷ elim body [ none ↦ [] | some _ ↦ ("Content-Type", "application/json") ∷ [] ];
            body = elim body [ none ↦ empty_body | some b ↦ json_body b ];
          })))
    context (wrap "http") (send env req)

  -- the new key's id and value
  unfoldable pub create_key : String → Exec World (String × String)
  unfolding request decode_key
  create_key name = do
    resp ← context (about "create key" name) (
        request "POST" (a.base_url ++ "/api_keys") (
          some (
            obj (
              field "api_key"
                (obj (field "name" (str name) (field "type" (str "read_write_api_key") end)))
                end))))
    require (resp.status == 201) (about "create key" name (status resp.status resp.body))
    result ← or_fail (about "create key" name (wrap "parse response" decode)) (decode_key resp.body)
    require (not (result.id == "")) (about "create key" name (msg "id missing in response"))
    require (not (result.key == "")) (about "create key" name (msg "key value missing in response"))
    pure (result.id, result.key)

  unfoldable pub delete_key : String → Exec World Unit
  unfolding request
  delete_key id = do
    resp ←
        context (about "delete key" id) (request "DELETE" (a.base_url ++ "/api_keys/" ++ id) none)
    require (resp.status == 204 || resp.status == 404)
        (about "delete key" id (status resp.status resp.body))

  unfoldable pub key_exists : String → Exec World Bool
  unfolding request decode_list has_key
  key_exists id = do
    resp ← context (wrap "list keys") (request "GET" (a.base_url ++ "/api_keys?limit=100") none)
    require (resp.status == 200) (wrap "list keys" (status resp.status resp.body))
    listed ← or_fail (wrap "list keys: parse response" decode) (decode_list resp.body)
    pure (has_key id listed.api_keys)

  -- the body of the goroutine that `Rotate` starts, with its `recover`
  unfoldable pub cleanup : Cleanup → Exec World Unit
  unfolding delete_key sanitize_for_log
  cleanup c w =
      let (r, w') = delete_key c.old_id w in
      elim r [
        | ok _ ↦ (ok tt, w')
        | err e ↦
            log "WARN" "pagerduty: best-effort delete of old key failed"
              (("old_key_id", sanitize_for_log c.old_id)
                ∷ ("provider_id", sanitize_for_log c.provider_id)
                ∷ [])
              (some e) w'
        | panic p ↦ log "ERROR" "pagerduty: cleanup goroutine panic" (("panic", p) ∷ []) none w'
      ]

  -- `Rotate` while it holds its slot
  unfoldable pub rotate_held : RotateRequest → Exec World Rotated
  rotate_held req = do
    suffix ← context (wrap "pagerduty rotate: generate name suffix") (random_hex env 2)
    t ← time_now env
    let name = req.provider_id ++ "-" ++ env.format token_time_fmt t ++ "-" ++ suffix
    created ← context (wrap "pagerduty rotate") (create_key name)
    launch_for adapter_name req.provider_id (lookup_nonempty "old_key_id" req.meta)
    rotated_at ← time_now env
    pure (record {
      provider_id = req.provider_id;
      credential_id = created.0;
      credential = created.1;
      rotated_at = rotated_at;
    })

  unfoldable pub rotate : RotateRequest → Exec World Rotated
  rotate req = do
    context (wrap "pagerduty rotate: acquire slot") (acquire_slot env adapter_name)
    finally (rotate_held req) (release_slot adapter_name)

  unfoldable pub drain : Exec World Unit
  unfolding drain_within cleanup
  drain w = drain_within adapter_name cleanup (env.deadline w.trace adapter_name) w

  unfoldable pub revoke : RevokeRequest → Exec World Unit
  unfolding delete_key
  revoke req = do
    require (not (req.credential_id == ""))
        (msg "pagerduty revoke: credential_id is required — refusing to skip revocation")
    context (wrap "pagerduty revoke") (delete_key req.credential_id)

  unfoldable pub check_status : String → Exec World CredentialStatus
  unfolding key_exists
  check_status id = do
    require (not (id == "")) (msg "pagerduty status: credential_id is required")
    active ← context (wrap "pagerduty status") (key_exists id)
    t ← time_now env
    pure (record { provider_id = id; credential_id = id; active = active; checked_at = t })

  unfoldable pub adapter : Adapter
  unfolding rotate revoke check_status drain
  adapter = record {
    name = adapter_name;
    rotate = rotate;
    revoke = revoke;
    status = check_status;
    drain = some drain;
  }
