-- ===== src/Splunk.antt =====
-- cred-rotation-api/adapter/splunk/splunk.go.
-- `new` is the constructor without the options, which set a test server's URL and a logger. That a
-- CA certificate holds PEM blocks is asked of the caller, `valid_pem`, who stands for crypto/x509.
pub mod Entries
pub mod OldToken
pub mod Lifecycle
pub mod Revocation
pub mod Rotation
use Prim.Native.String.{◌++◌}
use vault_secrets_broker.Prelude.{
  ℕ, String, Bool, true, false, not, ◌||◌, ◌&&◌, Option, none, some, List, [], ◌∷◌, ◌==◌, nat_eq,
  string_eq, if◌then◌else◌, lookup_nonempty, ◌>>=?◌, insert,
}
use vault_secrets_broker.Prelude.Text
use vault_secrets_broker.Json.{
  Json, Items, nil, cons, Fields, end, field, null, arr, obj, Payload, unmarshal, string_field,
  read_field, read_bool, read_string,
}
use vault_secrets_broker.Exec.{
  Error, msg, named, wrap, about, status, decode, Result, ok, err, panic, Exec, pure, fail, lift,
  or_fail, require, ◌>>=◌, ◌>>◌, finally, map_err, context,
}
use vault_secrets_broker.Net.{
  Time, Body, empty_body, form_body, HttpRequest, HttpResponse, Cleanup, World, Env, send,
  new_request, time_now, acquire_slot, release_slot, log,
}
use vault_secrets_broker.Net.Url.{path_escape}
use vault_secrets_broker.Adapter.{RotateRequest, RevokeRequest, CredentialStatus, Rotated, Adapter}
use vault_secrets_broker.Adapter.Shared.{sanitize_for_log, random_hex, launch_for, drain_within}
use vault_secrets_broker.Splunk.Entries.{decode_entries, first_token, first_enabled}

abbrev pub adapter_name : String
adapter_name = "splunk"

abbrev pub token_time_fmt : String
token_time_fmt = "20060102T150405.000Z"

pub record Config : Type 0 where
  pub base_url : String
  pub auth_token : String
  pub ca_cert : String
  pub insecure : Bool
  pub default_index : String
  pub default_sourcetype : String

-- `Adapter` of the package; `insecure` and `root_cas` are those of its TLS configuration.
pub record Splunk : Type 0 where
  pub base_url : String
  pub auth_token : String
  pub insecure : Bool
  pub root_cas : Option String
  pub default_index : String
  pub default_sourcetype : String

unfoldable pub new : (valid_pem : String → Bool) → Config → Result Splunk
unfolding Text.trim_slashes
new valid_pem cfg =
    let made : Option String → Result Splunk = λ cas. ok (record {
      base_url = Text.trim_slashes cfg.base_url;
      auth_token = cfg.auth_token;
      insecure = cfg.insecure;
      root_cas = cas;
      default_index = cfg.default_index;
      default_sourcetype = cfg.default_sourcetype;
    }) in
    if cfg.base_url == ""
    then err (msg "splunk: BaseURL is required")
    else if cfg.auth_token == ""
    then err (msg "splunk: AuthToken is required")
    else if cfg.ca_cert == ""
    then made none
    else if valid_pem cfg.ca_cert
    then made (some cfg.ca_cert)
    else err (msg "splunk: CACert contains no valid PEM blocks")

-- `form.Set` with a value that is not empty
abbrev set_nonempty : String → Option String → List (String × String) → List (String × String)
set_nonempty key none form = form
set_nonempty key (some v) form = insert key v form

abbrev nonempty : String → Option String
nonempty s = if s == "" then none else some s

-- the form of `createToken`
unfoldable pub create_form : Splunk → String → List (String × String) → List (String × String)
unfolding insert lookup_nonempty
create_form a name meta =
    let form = ("name", name) ∷ [] in
    let form' =
      set_nonempty "sourcetype" (nonempty a.default_sourcetype)
        (set_nonempty "index" (nonempty a.default_index) form) in
    set_nonempty "sourcetype" (lookup_nonempty "sourcetype" meta)
      (set_nonempty "index" (lookup_nonempty "index" meta) form')

module _ (env : Env) (a : Splunk) where
  -- `do`
  unfoldable pub request : (method endpoint : String) → Option Body → Exec World HttpResponse
  request method endpoint body = do
    req ← context (wrap "build request") (
        lift (
          new_request env (record {
            method = method;
            url = endpoint;
            headers = ("Authorization", "Bearer " ++ a.auth_token) ∷ elim body [
              | none ↦ []
              | some _ ↦ ("Content-Type", "application/x-www-form-urlencoded") ∷ []
            ];
            body = elim body [ none ↦ empty_body | some b ↦ b ];
          })))
    context (wrap "http") (send env req)

  unfoldable pub create_token : String → List (String × String) → Exec World String
  unfolding request create_form decode_entries
  create_token name meta = do
    resp ← context (about "create token" name) (
        request "POST" (a.base_url ++ "/services/data/inputs/http?output_mode=json")
          (some (form_body (create_form a name meta))))
    require (resp.status == 201 || resp.status == 200)
        (about "create token" name (status resp.status resp.body))
    entries ←
        or_fail (about "create token" name (wrap "parse response" decode))
          (decode_entries resp.body)
    require (not (first_token entries == ""))
        (about "create token" name (msg "token value missing in response"))
    pure (first_token entries)

  -- the URL of a token, in `deleteToken` and `Status`
  unfoldable pub token_url : String → String
  unfolding path_escape
  token_url name =
      a.base_url ++ "/services/data/inputs/http/" ++ path_escape name ++ "?output_mode=json"

  unfoldable pub delete_token : String → Exec World Unit
  unfolding request token_url
  delete_token name = do
    resp ← context (about "delete token" name) (request "DELETE" (token_url name) none)
    require (resp.status == 200 || resp.status == 204 || resp.status == 404)
        (about "delete token" name (status resp.status resp.body))

  -- the body of the goroutine that `Rotate` starts, with its `recover`
  unfoldable pub cleanup : Cleanup → Exec World Unit
  unfolding delete_token sanitize_for_log
  cleanup c w =
      let (r, w') = delete_token c.old_id w in
      elim r [
        | ok _ ↦ (ok tt, w')
        | err e ↦
            log "WARN" "splunk: best-effort delete of old token failed"
              (("old_token", sanitize_for_log c.old_id)
                ∷ ("provider_id", sanitize_for_log c.provider_id)
                ∷ [])
              (some e) w'
        | panic p ↦ log "ERROR" "splunk: cleanup goroutine panic" (("panic", p) ∷ []) none w'
      ]

  -- `Rotate` while it holds its slot
  unfoldable pub rotate_held : RotateRequest → Exec World Rotated
  rotate_held req = do
    suffix ← context (wrap "splunk rotate: generate name suffix") (random_hex env 2)
    t ← time_now env
    let name = req.provider_id ++ "-" ++ env.format token_time_fmt t ++ "-" ++ suffix
    value ← context (wrap "splunk rotate") (create_token name req.meta)
    launch_for adapter_name req.provider_id (lookup_nonempty "old_token_name" req.meta)
    rotated_at ← time_now env
    pure (record {
      provider_id = req.provider_id;
      credential_id = name;
      credential = value;
      rotated_at = rotated_at;
    })

  unfoldable pub rotate : RotateRequest → Exec World Rotated
  rotate req = do
    context (wrap "splunk rotate: acquire slot") (acquire_slot env adapter_name)
    finally (rotate_held req) (release_slot adapter_name)

  unfoldable pub drain : Exec World Unit
  unfolding drain_within cleanup
  drain w = drain_within adapter_name cleanup (env.deadline w.trace adapter_name) w

  unfoldable pub revoke : RevokeRequest → Exec World Unit
  unfolding delete_token
  revoke req = do
    require (not (req.credential_id == ""))
        (msg "splunk revoke: credential_id is required — refusing to skip revocation")
    context (wrap "splunk revoke") (delete_token req.credential_id)

  unfoldable pub check_status : String → Exec World CredentialStatus
  unfolding request token_url decode_entries
  check_status id = do
    require (not (id == "")) (msg "splunk status: credential_id is required")
    resp ← context (wrap "splunk status") (request "GET" (token_url id) none)
    if resp.status == 404
        then (do
          t ← time_now env
          pure (record { provider_id = id; credential_id = id; active = false; checked_at = t }))
        else (do
          require (resp.status == 200) (wrap "splunk status" (status resp.status resp.body))
          entries ← or_fail (wrap "splunk status: parse response" decode) (decode_entries resp.body)
          t ← time_now env
          pure (record {
            provider_id = id;
            credential_id = id;
            active = first_enabled entries;
            checked_at = t;
          }))

  unfoldable pub adapter : Adapter
  unfolding rotate revoke check_status drain
  adapter = record {
    name = adapter_name;
    rotate = rotate;
    revoke = revoke;
    status = check_status;
    drain = some drain;
  }
