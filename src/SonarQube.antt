-- ===== src/SonarQube.antt =====
-- cred-rotation-api/adapter/sonarqube/sonarqube.go.
-- The options of `New` set a test server's URL, a logger and a transport; `new` is the constructor
-- without options. The logger is the trace.
pub mod CredentialId
pub mod Parsing
pub mod Revocation
pub mod Rotation
use Prim.Native.String.{◌++◌}
use vault_secrets_broker.Prelude.{
  ℕ, suc, ◌+◌, String, Bool, true, false, not, ◌||◌, Option, none, some, List, [], ◌∷◌, ltb, ◌==◌,
  nat_eq, string_eq, if◌then◌else◌, lookup_nonempty,
}
use vault_secrets_broker.Prelude.Text
use vault_secrets_broker.Json.{
  Json, Items, nil, cons, Fields, end, field, null, arr, obj, Payload, unmarshal, string_field,
  read_field,
}
use vault_secrets_broker.Exec.{
  Error, msg, named, wrap, about, status, decode, Result, ok, err, panic, Exec, pure, fail, lift,
  or_fail, require, ◌>>=◌, ◌>>◌, finally, map_err, context,
}
use vault_secrets_broker.Net.{
  Time, Body, empty_body, form_body, HttpRequest, HttpResponse, Cleanup, World, Env, send,
  new_request, time_now, acquire_slot, release_slot, log,
}
use vault_secrets_broker.Net.Url.{query_escape}
use vault_secrets_broker.Adapter.{RotateRequest, RevokeRequest, CredentialStatus, Rotated, Adapter}
use vault_secrets_broker.Adapter.Shared.{sanitize_for_log, random_hex, launch_for, drain_within}

abbrev pub adapter_name : String
adapter_name = "sonarqube"

abbrev pub token_time_fmt : String
token_time_fmt = "20060102T150405Z"

pub record Config : Type 0 where
  pub base_url : String
  pub admin_token : String

-- `Adapter` of the package; its semaphore and wait group are in the world.
pub record SonarQube : Type 0 where
  pub base_url : String
  pub admin_token : String

unfoldable pub new : Config → Result SonarQube
unfolding Text.trim_slashes
new cfg =
    if cfg.base_url == ""
    then err (msg "sonarqube: BaseURL is required")
    else if cfg.admin_token == ""
    then err (msg "sonarqube: AdminToken is required")
    else ok (record { base_url = Text.trim_slashes cfg.base_url; admin_token = cfg.admin_token })

-- The two parts of "<login>:<tokenname>".
unfoldable pub parse_credential_id : String → Result (String × String)
unfolding Text.index Text.length Text.take Text.drop sanitize_for_log
parse_credential_id id = elim (Text.index b':' id) [
  | none ↦ err (named "invalid credential_id" (sanitize_for_log id))
  | some idx ↦
      if ltb idx 1 || idx + 1 == Text.length id
      then err (named "invalid credential_id" (sanitize_for_log id))
      else ok (Text.take idx id, Text.drop (suc idx) id)
]

-- the loop of `tokenExists` over the listed tokens, each read as `struct { Name string }`
token_name : Json → Option String
token_name (obj fs) = string_field "name" fs
token_name null = some ""
token_name _ = none

token_names : Items → Option (List String)
unfolding token_name
token_names nil = some []
token_names (cons j js) = elim (token_name j) [
  | none ↦ none
  | some n ↦ elim (token_names js) [ none ↦ none | some ns ↦ some (n ∷ ns) ]
]

read_tokens : Json → List String → Option (List String)
unfolding token_names
read_tokens null cur = some cur
read_tokens (arr js) cur = token_names js
read_tokens _ cur = none

has_token : String → List String → Bool
has_token name [] = false
has_token name (t ∷ ts) = if t == name then true else has_token name ts

module _ (env : Env) (a : SonarQube) where
  -- `do`
  unfoldable pub request :
      (method endpoint : String) → Body → (content_type : String) → Exec World HttpResponse
  request method endpoint body content_type = do
    req ← context (wrap "build request") (
        lift (
          new_request env (record {
            method = method;
            url = endpoint;
            headers =
                ("Authorization", "Bearer " ++ a.admin_token)
                ∷ (if content_type == "" then [] else ("Content-Type", content_type) ∷ []);
            body = body;
          })))
    context (wrap "http") (send env req)

  unfoldable pub generate_token : (login name token_type : String) → Exec World String
  unfolding request read_field
  generate_token login name token_type = do
    resp ← context (about "generate token" name) (
        request "POST" (a.base_url ++ "/api/user_tokens/generate")
          (form_body (("login", login) ∷ ("name", name) ∷ ("type", token_type) ∷ []))
          "application/x-www-form-urlencoded")
    require (resp.status == 200) (about "generate token" name (status resp.status resp.body))
    token ←
        or_fail (about "generate token" name (wrap "parse response" decode))
          (unmarshal "" (string_field "token") resp.body)
    require (not (token == ""))
        (about "generate token" name (msg "token value missing in response"))
    pure token

  unfoldable pub revoke_token : (login name : String) → Exec World Unit
  unfolding request
  revoke_token login name = do
    resp ← context (about "revoke token" name) (
        request "POST" (a.base_url ++ "/api/user_tokens/revoke")
          (form_body (("login", login) ∷ ("name", name) ∷ [])) "application/x-www-form-urlencoded")
    require (resp.status == 204 || resp.status == 404)
        (about "revoke token" name (status resp.status resp.body))

  unfoldable pub token_exists : (login name : String) → Exec World Bool
  unfolding request read_field read_tokens has_token query_escape
  token_exists login name = do
    resp ← context (about "search tokens for" login) (
        request "GET" (a.base_url ++ "/api/user_tokens/search?login=" ++ query_escape login)
          empty_body "")
    require (resp.status == 200) (about "search tokens for" login (status resp.status resp.body))
    tokens ←
        or_fail (wrap "search tokens: parse response" decode)
          (unmarshal [] (λ fs. read_field read_tokens "userTokens" fs []) resp.body)
    pure (has_token name tokens)

  -- the body of the goroutine that `Rotate` starts, with its `recover`
  unfoldable pub cleanup : Cleanup → Exec World Unit
  unfolding revoke_token sanitize_for_log
  cleanup c w =
      let (r, w') = revoke_token c.provider_id c.old_id w in
      elim r [
        | ok _ ↦ (ok tt, w')
        | err e ↦
            log "WARN" "sonarqube: best-effort revoke of old token failed"
              (("login", sanitize_for_log c.provider_id)
                ∷ ("old_token_name", sanitize_for_log c.old_id)
                ∷ [])
              (some e) w'
        | panic p ↦ log "ERROR" "sonarqube: cleanup goroutine panic" (("panic", p) ∷ []) none w'
      ]

  -- `Rotate` while it holds its slot
  unfoldable pub rotate_held : RotateRequest → Exec World Rotated
  rotate_held req = do
    suffix ← context (wrap "sonarqube rotate: generate name suffix") (random_hex env 2)
    t ← time_now env
    let name = req.provider_id ++ "-" ++ env.format token_time_fmt t ++ "-" ++ suffix
    let token_type : String = elim (lookup_nonempty "token_type" req.meta) [
      | none ↦ "USER_TOKEN"
      | some given ↦ given
    ]
    value ← context (wrap "sonarqube rotate") (generate_token req.provider_id name token_type)
    launch_for adapter_name req.provider_id (lookup_nonempty "old_token_name" req.meta)
    rotated_at ← time_now env
    pure (record {
      provider_id = req.provider_id;
      credential_id = req.provider_id ++ ":" ++ name;
      credential = value;
      rotated_at = rotated_at;
    })

  unfoldable pub rotate : RotateRequest → Exec World Rotated
  rotate req =
      if req.provider_id == ""
      then fail (msg "sonarqube rotate: provider_id (login) is required")
      else do
        context (wrap "sonarqube rotate: acquire slot") (acquire_slot env adapter_name)
        finally (rotate_held req) (release_slot adapter_name)

  unfoldable pub drain : Exec World Unit
  unfolding drain_within cleanup
  drain w = drain_within adapter_name cleanup (env.deadline w.trace adapter_name) w

  unfoldable pub revoke : RevokeRequest → Exec World Unit
  revoke req =
      if req.credential_id == ""
      then fail (msg "sonarqube revoke: credential_id is required — refusing to skip revocation")
      else do
        parts ← context (wrap "sonarqube revoke") (lift (parse_credential_id req.credential_id))
        context (wrap "sonarqube revoke") (revoke_token parts.0 parts.1)

  unfoldable pub check_status : String → Exec World CredentialStatus
  unfolding parse_credential_id token_exists
  check_status id =
      if id == "" then fail (msg "sonarqube status: credential_id is required") else do
        parts ← context (wrap "sonarqube status") (lift (parse_credential_id id))
        active ← context (wrap "sonarqube status") (token_exists parts.0 parts.1)
        t ← time_now env
        pure (record { provider_id = parts.0; credential_id = id; active = active; checked_at = t })

  unfoldable pub adapter : Adapter
  unfolding rotate revoke check_status drain
  adapter = record {
    name = adapter_name;
    rotate = rotate;
    revoke = revoke;
    status = check_status;
    drain = some drain;
  }
