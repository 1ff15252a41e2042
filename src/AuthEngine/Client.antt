-- ===== src/AuthEngine/Client.antt =====
-- plugins/vault-auth0-engine/backend/auth0.go: the client of the Auth0 Management API.
-- Its token cache is the world's `cache`, as that of the adapter, whose tests of the cache and
-- whose reading of the answer are the same.
use Prim.Native.String.{◌++◌}
use vault_secrets_broker.Prelude.{String, Bool, not, none, some, [], ◌∷◌, ◌==◌, nat_eq, string_eq}
use vault_secrets_broker.Json.{unmarshal, string_field, read_field}
use vault_secrets_broker.Exec.{
  msg, wrap, status, decode, ok, Exec, pure, lift, or_fail, require, ◌>>=◌, ◌>>◌, context,
}
use vault_secrets_broker.Net.{
  empty_body, quoted_body, TokenCache, no_cache, World, Env, send, new_request, time_now,
}
use vault_secrets_broker.Auth0.{cached, decode_token, expiry_after}

pub record Auth0Client : Type 0 where
  pub domain : String
  pub client_id : String
  pub client_secret : String
  pub audience : String
  pub base_url : String

abbrev pub set_cache : TokenCache → Exec World Unit
set_cache c w = (ok tt, record w { cache = c })

-- A new client has an empty cache.
unfoldable pub new_auth0_client :
    (domain client_id client_secret audience : String) → Exec World Auth0Client
new_auth0_client domain client_id client_secret audience = do
  set_cache no_cache
  pure (record {
    domain = domain;
    client_id = client_id;
    client_secret = client_secret;
    audience = audience;
    base_url = "https://" ++ domain;
  })

module _ (env : Env) (c : Auth0Client) where
  -- the part of `managementToken` after its second look at the cache
  unfoldable pub fetch_token : Exec World String
  fetch_token = do
    req ← context (wrap "build token request") (
        lift (
          new_request env (record {
            method = "POST";
            url = c.base_url ++ "/oauth/token";
            headers = ("Content-Type", "application/json") ∷ [];
            body = quoted_body (
                ("client_id", c.client_id)
                ∷ ("client_secret", c.client_secret)
                ∷ ("audience", c.audience)
                ∷ ("grant_type", "client_credentials")
                ∷ []);
          })))
    resp ← context (wrap "token request") (send env req)
    require (resp.status == 200) (wrap "token endpoint" (status resp.status resp.body))
    tok ← or_fail (wrap "parse token response" decode) (decode_token resp.body)
    require (not (tok.0 == "")) (msg "empty access_token in token response")
    now ← time_now env
    set_cache (record { mgmt_token = tok.0; token_expiry = expiry_after now tok.1 })
    pure tok.0

  unfoldable pub management_token : Exec World String
  management_token = do
    first ← cached env
    elim first [
      | some tok ↦ pure tok
      | none ↦ do again ← cached env; elim again [ some tok ↦ pure tok | none ↦ fetch_token ]
    ]

  unfoldable pub rotate_secret : (client_id : String) → Exec World String
  unfolding read_field
  rotate_secret client_id = do
    token ← context (wrap "auth0: get management token") management_token
    req ← context (wrap "auth0: build rotate request") (
        lift (
          new_request env (record {
            method = "POST";
            url = c.base_url ++ "/api/v2/clients/" ++ client_id ++ "/rotate-secret";
            headers =
                ("Authorization", "Bearer " ++ token) ∷ ("Content-Type", "application/json") ∷ [];
            body = empty_body;
          })))
    resp ← context (wrap "auth0: rotate http") (send env req)
    require (resp.status == 200) (wrap "auth0: rotate" (status resp.status resp.body))
    secret ←
        or_fail (wrap "auth0: parse rotate response" decode)
          (unmarshal "" (string_field "client_secret") resp.body)
    require (not (secret == "")) (msg "auth0: empty client_secret in rotate response")
    pure secret

  unfoldable pub app_active : (client_id : String) → Exec World Bool
  app_active client_id = do
    token ← context (wrap "auth0: get management token") management_token
    req ← context (wrap "auth0: build status request") (
        lift (
          new_request env (record {
            method = "GET";
            url =
                c.base_url ++ "/api/v2/clients/" ++ client_id
                ++ "?fields=client_id&include_fields=true";
            headers = ("Authorization", "Bearer " ++ token) ∷ [];
            body = empty_body;
          })))
    resp ← context (wrap "auth0: status http") (send env req)
    pure (resp.status == 200)
