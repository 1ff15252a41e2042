-- ===== src/GitHub.antt =====
-- cred-rotation-api/adapter/github/github.go.
-- `new` is the constructor without the option, which sets another base URL. The two readings of the
-- clock in `Rotate`'s request body are in the order of the source; the fields of a JSON object that
-- `json.Marshal` writes from a map are in the order of their keys.
pub mod Documents
pub mod Expiry
pub mod Lifecycle
pub mod Revocation
pub mod Rotation
use Prim.Native.String.{◌++◌}
use vault_secrets_broker.Prelude.{
  ℕ, ◌*◌, ◌/◌, String, Bool, true, false, not, ◌||◌, ◌&&◌, Option, none, some, List, [], ◌∷◌, ltb,
  leb, ◌==◌, nat_eq, string_eq, if◌then◌else◌, lookup, lookup_nonempty, insert, ◌>>=?◌,
}
use vault_secrets_broker.Prelude.Text
use vault_secrets_broker.Prelude.Int.{ℤ, pos, negsuc, ◌+ℤ◌, ltb_ℤ}
use vault_secrets_broker.Prelude.Decimal.{atoi, format_int}
use vault_secrets_broker.Json.{
  Json, Items, nil, cons, Fields, end, field, null, str, arr, obj, Payload, unmarshal, string_field,
  read_field, read_string, read_int,
}
use vault_secrets_broker.Exec.{
  Error, msg, wrap, status, decode, Result, ok, err, panic, Exec, pure, fail, lift, or_fail,
  require, ◌>>=◌, ◌>>◌, map_err, context, attempt,
}
use vault_secrets_broker.Net.{
  Time, Body, empty_body, json_body, HttpRequest, HttpResponse, World, Env, send, new_request,
  time_now,
}
use vault_secrets_broker.Adapter.{RotateRequest, RevokeRequest, CredentialStatus, Rotated, Adapter}
use vault_secrets_broker.GitHub.Documents.{rotate_body, decode_created}

abbrev pub adapter_name : String
adapter_name = "github"

abbrev default_base_url : String
default_base_url = "https://api.github.com"

abbrev pub default_expiry : ℕ
default_expiry = 90

abbrev pub api_version : String
api_version = "2022-11-28"

pub record Config : Type 0 where
  pub base_url : String
  pub admin_pat : String

pub record GitHub : Type 0 where
  pub base_url : String
  pub admin_pat : String

unfoldable pub new : Config → Result GitHub
unfolding Text.trim_slashes
new cfg =
    let base = if cfg.base_url == "" then default_base_url else cfg.base_url in
    if cfg.admin_pat == ""
    then err (msg "github: AdminPAT is required")
    else ok (record { base_url = Text.trim_slashes base; admin_pat = cfg.admin_pat })

abbrev in_year : ℤ → ℕ
in_year (negsuc n) = default_expiry
in_year (pos n) = if leb 1 n && leb n 366 then n else default_expiry

-- `expireDays`
unfoldable pub expire_days : List (String × String) → ℕ
unfolding lookup atoi
expire_days meta = elim (lookup "expires_days" meta) [
  | none ↦ default_expiry
  | some v ↦ elim (atoi v) [ none ↦ default_expiry | some n ↦ in_year n ]
]

abbrev day : ℕ
day = 86400 * 1000000000

-- Time.UnixMilli
abbrev unix_milli : Time → ℤ
unix_milli (pos n) = pos (n / 1000000)
unix_milli (negsuc n) = negsuc (n / 1000000)

module _ (env : Env) (a : GitHub) where
  -- `do`
  unfoldable pub request : (method path : String) → Option Json → Exec World HttpResponse
  request method path body = do
    req ← context (wrap "build request") (
        lift (
          new_request env (record {
            method = method;
            url = a.base_url ++ path;
            headers =
                ("Authorization", "Bearer " ++ a.admin_pat)
                ∷ ("Accept", "application/vnd.github+json")
                ∷ ("X-GitHub-Api-Version", api_version)
                ∷ elim body [ none ↦ [] | some _ ↦ ("Content-Type", "application/json") ∷ [] ];
            body = elim body [ none ↦ empty_body | some b ↦ json_body b ];
          })))
    context (wrap "http") (send env req)

  unfoldable pub revoke : RevokeRequest → Exec World Unit
  unfolding request
  revoke req = do
    require (not (req.credential_id == "")) (msg "github revoke: credential_id is required")
    resp ←
        context (wrap "github revoke")
          (request "DELETE" ("/user/personal_access_tokens/" ++ req.credential_id) none)
    require (resp.status == 404 || resp.status == 204)
        (wrap "github revoke" (status resp.status resp.body))

  -- `_ = a.Revoke(…)`, where there is an old token
  abbrev pub revoke_old : String → Option String → Exec World Unit
  unfolding revoke
  revoke_old provider_id none = pure tt
  revoke_old provider_id (some old) = do
    attempt (revoke (record { provider_id = provider_id; credential_id = old }))
    pure tt

  -- `Rotate` from its request to the guard against an empty token
  unfoldable pub create_token : Json → Exec World (ℤ × String)
  unfolding request decode_created
  create_token body = do
    resp ←
        context (wrap "github rotate") (request "POST" "/user/personal_access_tokens" (some body))
    require (resp.status == 201) (wrap "github rotate" (status resp.status resp.body))
    created ← or_fail (wrap "github rotate: parse response" decode) (decode_created resp.body)
    require (not (created.1 == "")) (msg "github rotate: empty token in response")
    pure created

  -- `Rotate` after its token is created
  unfoldable pub finish : RotateRequest → ℤ × String → Exec World Rotated
  unfolding lookup_nonempty format_int
  finish req created = do
    rotated_at ← time_now env
    revoke_old req.provider_id (lookup_nonempty "old_token_id" req.meta)
    pure (record {
      provider_id = req.provider_id;
      credential_id = format_int created.0;
      credential = created.1;
      rotated_at = rotated_at;
    })

  unfoldable pub rotate : RotateRequest → Exec World Rotated
  unfolding create_token finish revoke request expire_days rotate_body decode_created
      lookup_nonempty format_int
  rotate req = do
    t ← time_now env
    let name = req.provider_id ++ "-" ++ format_int (unix_milli t)
    t' ← time_now env
    let expires_at = env.format "2006-01-02T15:04:05Z07:00" (t' +ℤ pos (expire_days req.meta * day))
    created ← create_token (rotate_body env.parse_json name expires_at req.meta)
    finish req created

  -- `active`, given the text of "expires_at"
  abbrev is_active : String → Exec World Bool
  is_active expires_at = if expires_at == "" then pure true else elim (env.parse_time expires_at) [
    | none ↦ pure true
    | some exp ↦ do now ← time_now env; pure (ltb_ℤ now exp)
  ]

  unfoldable pub check_status : String → Exec World CredentialStatus
  unfolding request read_field
  check_status id = do
    require (not (id == "")) (msg "github status: credential_id is required")
    resp ←
        context (wrap "github status") (request "GET" ("/user/personal_access_tokens/" ++ id) none)
    if resp.status == 404
        then (do
          t ← time_now env
          pure (record { provider_id = ""; credential_id = id; active = false; checked_at = t }))
        else (do
          require (resp.status == 200) (wrap "github status" (status resp.status resp.body))
          expires_at ←
              or_fail (wrap "github status: parse response" decode)
                (unmarshal "" (string_field "expires_at") resp.body)
          active ← is_active expires_at
          t ← time_now env
          pure (record { provider_id = ""; credential_id = id; active = active; checked_at = t }))

  unfoldable pub adapter : Adapter
  unfolding rotate revoke check_status
  adapter = record {
    name = adapter_name;
    rotate = rotate;
    revoke = revoke;
    status = check_status;
    drain = none;
  }
