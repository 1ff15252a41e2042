-- ===== src/Server/Handlers.antt =====
-- cred-rotation-api/server/handlers.go.
-- The two handlers' time limit shows as a refusal of what they call.
pub mod Laws
use vault_secrets_broker.Prelude.{
  ℕ, String, Bool, true, false, not, ◌||◌, Option, none, some, List, [], ◌∷◌, ◌==◌, string_eq,
  if◌then◌else◌, lookup, insert, ◌>>=?◌,
}
use vault_secrets_broker.Json.{
  Json, Fields, end, field, obj, null, Payload, unmarshal, string_field, read_field, read_string,
}
use vault_secrets_broker.Exec.{
  Error, Result, ok, err, panic, Exec, pure, lift, ◌>>=◌, ◌>>◌, attempt,
}
use vault_secrets_broker.Net.{World, Env, log}
use vault_secrets_broker.Adapter.{Adapter, RotateResponse, Rotated}
use vault_secrets_broker.Adapter.Registry
use vault_secrets_broker.Adapter.Registry.{Registry}
use vault_secrets_broker.Vault.{Base64, transit_encrypt}
use vault_secrets_broker.Server.{
  Request, Answer, problem, problem_with, rotated, revoked, checked, healthy, Response,
}

pub record Handlers : Type 0 where
  pub registry : Registry
  pub transit_key_name : String

-- `rotateRequest`
pub record RotateBody : Type 0 where
  pub provider : String
  pub provider_id : String
  pub meta : List (String × String)

-- `revokeRequest`
pub record RevokeBody : Type 0 where
  pub provider : String
  pub provider_id : String
  pub credential_id : String

-- An object's keys, into a `map[string]string`.
read_map : Fields → List (String × String) → Option (List (String × String))
unfolding insert
read_map end cur = some cur
read_map (field k v fs) cur = elim (read_string v "") [
  | none ↦ none
  | some s ↦ read_map fs (insert k s cur)
]

abbrev read_meta : Json → List (String × String) → Option (List (String × String))
read_meta null cur = some []
read_meta (obj fs) cur = read_map fs cur
read_meta _ cur = none

unfoldable pub decode_rotate : Payload → Option RotateBody
unfolding read_field read_map
decode_rotate body =
    unmarshal (record { provider = ""; provider_id = ""; meta = [] })
      (λ fs. string_field "provider" fs >>=? λ provider.
        string_field "provider_id" fs >>=? λ provider_id.
        read_field read_meta "meta" fs [] >>=? λ meta.
        some (record { provider = provider; provider_id = provider_id; meta = meta }))
      body

unfoldable pub decode_revoke : Payload → Option RevokeBody
unfolding read_field
decode_revoke body =
    unmarshal (record { provider = ""; provider_id = ""; credential_id = "" })
      (λ fs. string_field "provider" fs >>=? λ provider.
        string_field "provider_id" fs >>=? λ provider_id.
        string_field "credential_id" fs >>=? λ credential_id.
        some (record {
          provider = provider;
          provider_id = provider_id;
          credential_id = credential_id;
        }))
      body

-- `jsonError` and `jsonOK`
abbrev pub json_error : ℕ → Answer → Exec World Response
json_error code answer = pure (record { code = code; answer = answer })

abbrev pub json_ok : Answer → Exec World Response
json_ok answer = pure (record { code = 200; answer = answer })

-- r.URL.Query().Get(key)
abbrev query_get : String → List (String × String) → String
unfolding lookup
query_get key query = elim (lookup key query) [ none ↦ "" | some v ↦ v ]

module _ (env : Env) (base64 : Base64) (h : Handlers) where
  -- after the adapter's answer: encrypt, and answer with the ciphertext
  unfoldable pub encrypt_and_answer : (provider : String) → Rotated → Exec World Response
  encrypt_and_answer provider result = do
    r ← attempt (transit_encrypt env base64 h.transit_key_name result.credential)
    elim r [
      | ok ciphertext ↦ json_ok (
          rotated (record {
            provider_id = result.provider_id;
            encrypted_value = ciphertext;
            rotated_at = result.rotated_at;
          }))
      | err e ↦ do
        log "ERROR" "transit encrypt failed" (("provider", provider) ∷ []) (some e)
        json_error 500 (problem "encryption failed")
      | panic p ↦ lift (panic p)
    ]

  unfoldable pub rotate_with : RotateBody → Adapter → Exec World Response
  rotate_with req a = do
    r ← attempt (a.rotate (record { provider_id = req.provider_id; meta = req.meta }))
    elim r [
      | ok result ↦ encrypt_and_answer req.provider result
      | err e ↦ do
        log "ERROR" "adapter rotate failed" (("provider", req.provider) ∷ []) (some e)
        json_error 502 (problem_with "rotation failed: " e)
      | panic p ↦ lift (panic p)
    ]

  unfoldable pub rotate : Request → Exec World Response
  rotate r = elim (decode_rotate r.body) [
    | none ↦ json_error 400 (problem "invalid JSON body")
    | some req ↦
        if req.provider == "" || req.provider_id == ""
        then json_error 400 (problem "provider and provider_id are required")
        else elim (Registry.get req.provider h.registry) [
          | ok a ↦ rotate_with req a
          | err e ↦ json_error 404 (problem_with "" e)
          | panic p ↦ lift (panic p)
        ]
  ]

  unfoldable pub revoke_with : RevokeBody → Adapter → Exec World Response
  revoke_with req a = do
    r ←
        attempt
          (a.revoke (record { provider_id = req.provider_id; credential_id = req.credential_id }))
    elim r [
      | ok _ ↦ json_ok revoked
      | err e ↦ do
        log "ERROR" "adapter revoke failed" (("provider", req.provider) ∷ []) (some e)
        json_error 502 (problem_with "revocation failed: " e)
      | panic p ↦ lift (panic p)
    ]

  unfoldable pub revoke : Request → Exec World Response
  revoke r = elim (decode_revoke r.body) [
    | none ↦ json_error 400 (problem "invalid JSON body")
    | some req ↦
        if req.provider == "" || req.provider_id == ""
        then json_error 400 (problem "provider and provider_id are required")
        else elim (Registry.get req.provider h.registry) [
          | ok a ↦ revoke_with req a
          | err e ↦ json_error 404 (problem_with "" e)
          | panic p ↦ lift (panic p)
        ]
  ]

  unfoldable pub status_with : (provider credential_id : String) → Adapter → Exec World Response
  status_with provider credential_id a = do
    r ← attempt (a.status credential_id)
    elim r [
      | ok s ↦ json_ok (checked s)
      | err e ↦ do
        log "ERROR" "adapter status failed" (("provider", provider) ∷ []) (some e)
        json_error 502 (problem_with "status check failed: " e)
      | panic p ↦ lift (panic p)
    ]

  unfoldable pub status : Request → Exec World Response
  unfolding lookup
  status r =
      let provider = query_get "provider" r.query in
      let credential_id = query_get "credential_id" r.query in
      if provider == "" || credential_id == ""
      then json_error 400 (problem "provider and credential_id query params are required")
      else elim (Registry.get provider h.registry) [
        | ok a ↦ status_with provider credential_id a
        | err e ↦ json_error 404 (problem_with "" e)
        | panic p ↦ lift (panic p)
      ]

unfoldable pub health : Request → Exec World Response
health r = json_ok healthy
