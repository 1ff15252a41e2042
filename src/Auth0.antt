-- ===== src/Auth0.antt =====
-- cred-rotation-api/adapter/auth0/auth0.go.
-- `new` is the constructor without the option, which sets a test server's URL. The token cache is
-- the world's `cache`. In `management_token` the two looks at the cache, under the read lock and
-- under the write lock, follow one another with no other goroutine between them; Sharing puts
-- other calls between them.
pub mod Cache
pub mod Sharing
use Prim.Native.String.{◌++◌}
use vault_secrets_broker.Prelude.{
  ℕ, ◌*◌, String, Bool, true, false, not, ◌||◌, Option, none, some, List, [], ◌∷◌, ltb, ◌==◌,
  nat_eq, string_eq, if◌then◌else◌, ◌>>=?◌,
}
use vault_secrets_broker.Prelude.Int.{ℤ, pos, ◌+ℤ◌, ◌*ℤ◌, ltb_ℤ, wrap_64}
use vault_secrets_broker.Json.{Fields, Payload, unmarshal, string_field, read_field, read_int}
use vault_secrets_broker.Exec.{
  Error, msg, wrap, status, decode, Result, ok, err, panic, Exec, pure, fail, lift, or_fail,
  require, ◌>>=◌, ◌>>◌, map_err, context,
}
use vault_secrets_broker.Net.{
  Time, Body, empty_body, quoted_body, HttpRequest, HttpResponse, TokenCache, World, Env, send,
  new_request, time_now,
}
use vault_secrets_broker.Adapter.{RotateRequest, RevokeRequest, CredentialStatus, Rotated, Adapter}

abbrev pub adapter_name : String
adapter_name = "auth0"

abbrev pub second : ℕ
second = 1000000000

abbrev pub token_refresh_buf : ℕ
token_refresh_buf = 5 * 60 * second

pub record Config : Type 0 where
  pub domain : String
  pub client_id : String
  pub client_secret : String
  pub audience : String

pub record Auth0 : Type 0 where
  pub domain : String
  pub client_id : String
  pub client_secret : String
  pub audience : String
  pub base_url : String

unfoldable pub new : Config → Result Auth0
new cfg =
    if cfg.domain == "" || cfg.client_id == "" || cfg.client_secret == "" || cfg.audience == ""
    then err (msg "auth0: all Config fields are required")
    else ok (record {
      domain = cfg.domain;
      client_id = cfg.client_id;
      client_secret = cfg.client_secret;
      audience = cfg.audience;
      base_url = "https://" ++ cfg.domain;
    })

-- `time.Until(expiry) > tokenRefreshBuf`
abbrev pub is_fresh : (expiry now : Time) → Bool
is_fresh expiry now = ltb_ℤ (now +ℤ pos token_refresh_buf) expiry

-- `time.Now().Add(time.Duration(tok.ExpiresIn) * time.Second)`; the product is an int64
abbrev pub expiry_after : (now expires_in : ℤ) → Time
expiry_after now expires_in = now +ℤ wrap_64 (expires_in *ℤ pos second)

-- `tok`: the access token and its lifetime
unfoldable pub decode_token : Payload → Option (String × ℤ)
unfolding read_field
decode_token body =
    unmarshal ("", pos 0)
      (λ fs. string_field "access_token" fs >>=? λ token.
        read_field read_int "expires_in" fs (pos 0) >>=? λ expires_in. some (token, expires_in))
      body

abbrev get_cache : Exec World TokenCache
get_cache w = (ok w.cache, w)

abbrev set_cache : TokenCache → Exec World Unit
set_cache c w = (ok tt, record w { cache = c })

module _ (env : Env) where
  -- the test of the cache: the token, if it is there and fresh
  unfoldable pub cached : Exec World (Option String)
  cached = do
    c ← get_cache
    if c.mgmt_token == "" then pure none else (do
      now ← time_now env
      pure (if is_fresh c.token_expiry now then some c.mgmt_token else none))

  module _ (a : Auth0) where
    -- the write-locked part of `managementToken`, after its second look at the cache
    unfoldable pub fetch_token : Exec World String
    unfolding decode_token wrap_64
    fetch_token = do
      req ← context (wrap "build token request") (
          lift (
            new_request env (record {
              method = "POST";
              url = a.base_url ++ "/oauth/token";
              headers = ("Content-Type", "application/json") ∷ [];
              body = quoted_body (
                  ("client_id", a.client_id)
                  ∷ ("client_secret", a.client_secret)
                  ∷ ("audience", a.audience)
                  ∷ ("grant_type", "client_credentials")
                  ∷ []);
            })))
      resp ← context (wrap "token request") (send env req)
      require (resp.status == 200) (wrap "token endpoint" (status resp.status resp.body))
      tok ← or_fail (wrap "parse token response" decode) (decode_token resp.body)
      require (not (tok.0 == "")) (msg "empty access_token in response")
      now ← time_now env
      set_cache (record { mgmt_token = tok.0; token_expiry = expiry_after now tok.1 })
      pure tok.0

    unfoldable pub management_token : Exec World String
    unfolding cached fetch_token
    management_token = do
      first ← cached
      elim first [
        | some tok ↦ pure tok
        | none ↦ do again ← cached; elim again [ some tok ↦ pure tok | none ↦ fetch_token ]
      ]

    unfoldable pub rotate : RotateRequest → Exec World Rotated
    unfolding management_token read_field
    rotate req = do
      token ← context (wrap "auth0 rotate: get management token") management_token
      http_req ← context (wrap "auth0 rotate: build request") (
          lift (
            new_request env (record {
              method = "POST";
              url = a.base_url ++ "/api/v2/clients/" ++ req.provider_id ++ "/rotate-secret";
              headers =
                  ("Authorization", "Bearer " ++ token) ∷ ("Content-Type", "application/json") ∷ [];
              body = empty_body;
            })))
      resp ← context (wrap "auth0 rotate: http") (send env http_req)
      require (resp.status == 200) (wrap "auth0 rotate" (status resp.status resp.body))
      secret ←
          or_fail (wrap "auth0 rotate: parse response" decode)
            (unmarshal "" (string_field "client_secret") resp.body)
      require (not (secret == "")) (msg "auth0 rotate: empty client_secret in response")
      rotated_at ← time_now env
      pure (record {
        provider_id = req.provider_id;
        credential_id = req.provider_id;
        credential = secret;
        rotated_at = rotated_at;
      })

    unfoldable pub revoke : RevokeRequest → Exec World Unit
    revoke req =
        fail (msg "auth0: explicit revocation is not supported; use Rotate to replace the secret")

    unfoldable pub check_status : String → Exec World CredentialStatus
    unfolding management_token
    check_status id = do
      token ← context (wrap "auth0 status: get management token") management_token
      http_req ← context (wrap "auth0 status: build request") (
          lift (
            new_request env (record {
              method = "GET";
              url =
                  a.base_url ++ "/api/v2/clients/" ++ id
                  ++ "?fields=client_id,name&include_fields=true";
              headers = ("Authorization", "Bearer " ++ token) ∷ [];
              body = empty_body;
            })))
      resp ← context (wrap "auth0 status: http") (send env http_req)
      t ← time_now env
      pure (record {
        provider_id = id;
        credential_id = id;
        active = resp.status == 200;
        checked_at = t;
      })

    unfoldable pub adapter : Adapter
    unfolding rotate revoke check_status
    adapter = record {
      name = adapter_name;
      rotate = rotate;
      revoke = revoke;
      status = check_status;
      drain = none;
    }
