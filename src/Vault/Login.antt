-- ===== src/Vault/Login.antt =====
-- `New`, `loginJWT`, `fetchSPIFFEJWT`, `tokenTTL` and the renewer of
-- cred-rotation-api/vault/client.go.
-- The SPIRE workload API (github.com/spiffe/go-spiffe) is the parameter `Spire`; `seven_tenths` is
-- the floating-point product of a duration with 0.70.
pub mod Laws
pub mod Renewal
pub mod Rounds
use vault_secrets_broker.Prelude.{
  ℕ, zero, suc, String, Bool, true, false, not, ◌&&◌, ◌||◌, Option, none, some, List, [], ◌∷◌, ltb,
  ◌==◌, string_eq, if◌then◌else◌,
}
use vault_secrets_broker.Prelude.Int.{ℤ, pos, negsuc, ◌*ℤ◌, ltb_ℤ, wrap_64}
use vault_secrets_broker.Json.{Json, Fields, end, field, num, frac, str}
use vault_secrets_broker.Exec.{
  Error, msg, named, wrap, Result, ok, err, panic, Exec, pure, fail, lift, require, ◌>>=◌, ◌>>◌,
  map_err, context, attempt,
}
use vault_secrets_broker.Net.{
  Time, World, Env, Event, waited, Secret, write_logical, read_logical, set_token, record_event,
}
use vault_secrets_broker.Vault.{lookup_field}
use vault_secrets_broker.Vault.Socket.{validate_spiffe_socket}

-- A JWT-SVID: the raw token and the trust domain of its SPIFFE ID.
pub record Svid : Type 0 where
  pub marshal : String
  pub trust_domain : String

pub record Spire : Type 0 where
  -- the error of `workloadapi.NewJWTSource`
  pub connect : List Event → (socket : String) → Option Error
  pub fetch : List Event → (socket audience : String) → Result Svid

pub record Config : Type 0 where
  pub address : String
  pub token : String
  pub jwt_mount_path : String
  pub jwt_role : String
  pub jwt_token : String
  pub spiffe_socket : String
  pub spiffe_audience : String
  pub spiffe_trust_domain : String
  pub role_id : String
  pub secret_id : String
  pub ca_cert_path : String

-- `envOr` and `NewFromEnv`, over the process environment
abbrev pub env_or : (String → String) → (key fallback : String) → String
env_or getenv key fallback = if getenv key == "" then fallback else getenv key

unfoldable pub new_from_env : (getenv : String → String) → Config
new_from_env getenv = record {
  address = env_or getenv "VAULT_ADDR" "http://127.0.0.1:8200";
  token = getenv "VAULT_TOKEN";
  jwt_mount_path = env_or getenv "VAULT_JWT_MOUNT" "auth/jwt/login";
  jwt_role = getenv "VAULT_JWT_ROLE";
  jwt_token = getenv "VAULT_JWT_TOKEN";
  spiffe_socket = getenv "SPIFFE_ENDPOINT_SOCKET";
  spiffe_audience = getenv "VAULT_SPIFFE_AUDIENCE";
  spiffe_trust_domain = getenv "VAULT_SPIFFE_TRUST_DOMAIN";
  role_id = getenv "VAULT_APPROLE_ROLE_ID";
  secret_id = getenv "VAULT_APPROLE_SECRET_ID";
  ca_cert_path = getenv "VAULT_CACERT";
}

abbrev pub fallback_interval : ℤ
fallback_interval = pos 240000000000

-- The errors of vaultapi's ConfigureTLS, with a CA file, and of its NewClient.
pub record ClientSetup : Type 0 where
  pub configure_tls : (ca_cert_path : String) → Option Error
  pub new_client : Option Error

abbrev refuse : Option Error → Result (Unit {0})
refuse none = ok tt
refuse (some e) = err e

-- How `spiffeRenewer` ended: with its context, or by a call of `onError`.
pub data Ended : Type 0 where
  cancelled : Ended
  reported : Error → Ended

-- `if secret == nil || secret.Auth == nil`, then `vc.SetToken(secret.Auth.ClientToken)`
abbrev auth_token : Error → Option Secret → Exec World Unit
auth_token e none = fail e
auth_token e (some s) = elim s.auth [ none ↦ fail e | some t ↦ set_token t ]

module _ (env : Env) where
  unfoldable pub login_jwt : (mount_path role jwt : String) → Exec World Unit
  login_jwt mount_path role jwt = do
    secret ← context (wrap "vault: JWT auth login") (
        write_logical env mount_path
          (field "jwt" (str jwt) (if role == "" then end else field "role" (str role) end)))
    auth_token (msg "vault: JWT auth returned empty auth") secret

  module _ (spire : Spire) where
    abbrev connect : String → Exec World Unit
    connect socket w = elim (spire.connect w.trace socket) [
      | none ↦ (ok tt, w)
      | some e ↦ (err (wrap "SPIFFE: connect to workload API" e), w)
    ]

    abbrev fetch : (socket audience : String) → Exec World Svid
    fetch socket audience w = (spire.fetch w.trace socket audience, w)

    unfoldable pub fetch_spiffe_jwt : (socket audience trust_domain : String) → Exec World String
    fetch_spiffe_jwt socket audience trust_domain = do
      require (not (audience == ""))
          (msg "SPIFFE: audience is required for JWT-SVID fetch (set VAULT_SPIFFE_AUDIENCE)")
      connect socket
      svid ← context (wrap "SPIFFE: fetch JWT-SVID") (fetch socket audience)
      require (trust_domain == "" || svid.trust_domain == trust_domain)
          (named "SPIFFE: SVID trust domain does not match expected" svid.trust_domain)
      pure svid.marshal

    -- the `switch` of `New`
    unfoldable pub login : Config → Exec World Unit
    login cfg =
        if not (cfg.token == "")
        then set_token cfg.token
        else if not (cfg.spiffe_socket == "")
        then (do
          lift (validate_spiffe_socket cfg.spiffe_socket)
          jwt ←
              context (wrap "vault: SPIFFE JWT-SVID")
                (fetch_spiffe_jwt cfg.spiffe_socket cfg.spiffe_audience cfg.spiffe_trust_domain)
          login_jwt cfg.jwt_mount_path cfg.jwt_role jwt)
        else if not (cfg.jwt_token == "")
        then login_jwt cfg.jwt_mount_path cfg.jwt_role cfg.jwt_token
        else if not (cfg.role_id == "") && not (cfg.secret_id == "")
        then (do
          secret ← context (wrap "vault: AppRole login") (
              write_logical env "auth/approle/login"
                (field "role_id" (str cfg.role_id) (field "secret_id" (str cfg.secret_id) end)))
          auth_token (msg "vault: AppRole login returned empty auth") secret)
        else fail (
            msg
              "vault: must supply VAULT_TOKEN, SPIFFE_ENDPOINT_SOCKET, VAULT_JWT_TOKEN, or VAULT_APPROLE_ROLE_ID+VAULT_APPROLE_SECRET_ID")

    -- `New`
    unfoldable pub new : ClientSetup → Config → Exec World Unit
    new setup cfg = do
      context (wrap "vault: configure TLS") (
          lift (
            refuse (if cfg.ca_cert_path == "" then none else setup.configure_tls cfg.ca_cert_path)))
      context (wrap "vault: new client") (lift (refuse setup.new_client))
      login cfg

  -- json.Number.Int64, whose error is dropped: the nearest int64, or 0 where there is a fraction
  abbrev pub ttl_seconds : Json → Option ℤ
  ttl_seconds (num (pos n)) =
      some (pos (if ltb n 9223372036854775808 then n else 9223372036854775807))
  ttl_seconds (num (negsuc n)) =
      some (negsuc (if ltb n 9223372036854775808 then n else 9223372036854775807))
  ttl_seconds frac = some (pos 0)
  ttl_seconds _ = none

  unfoldable pub token_ttl : Exec World Time
  unfolding lookup_field wrap_64
  token_ttl = do
    secret ← context (wrap "token lookup-self") (read_logical env "auth/token/lookup-self")
    elim secret [
      | none ↦ fail (msg "token lookup-self: empty response")
      | some s ↦ elim (lookup_field "ttl" s.content) [
        | none ↦ fail (msg "token lookup-self: ttl field missing")
        | some raw ↦ elim (ttl_seconds raw) [
          | none ↦ fail (msg "token lookup-self: ttl has unexpected type")
          | some n ↦ pure (wrap_64 (n *ℤ pos 1000000000))
        ]
      ]
    ]

  abbrev wait : Time → Exec World Unit
  wait t w = (ok tt, record_event (waited t) w)

  module _ (spire : Spire) (seven_tenths : ℤ → ℤ) where
    unfoldable pub renew_interval : Exec World Time
    renew_interval = do
      ttl ← attempt token_ttl
      elim ttl [
        | ok t ↦ pure (if ltb_ℤ (pos 0) t then seven_tenths t else fallback_interval)
        | err _ ↦ pure fallback_interval
        | panic _ ↦ pure fallback_interval
      ]

    unfoldable pub renew : Config → Exec World Unit
    renew cfg = do
      jwt ←
          context (wrap "SPIFFE renewer: fetch JWT-SVID")
            (fetch_spiffe_jwt spire cfg.spiffe_socket cfg.spiffe_audience cfg.spiffe_trust_domain)
      context (wrap "SPIFFE renewer: re-auth to Vault")
          (login_jwt cfg.jwt_mount_path cfg.jwt_role jwt)

    -- The loop, where the context ends during the wait after so many rounds.
    unfoldable pub spiffe_renewer : (rounds : ℕ) → Config → Exec World Ended
    unfolding renew_interval renew
    spiffe_renewer zero cfg = do renew_interval; pure cancelled
    spiffe_renewer (suc rounds) cfg = do
      interval ← renew_interval
      wait interval
      r ← attempt (renew cfg)
      elim r [
        | ok _ ↦ spiffe_renewer rounds cfg
        | err e ↦ pure (reported e)
        | panic p ↦ lift (panic p)
      ]

    -- `StartRenewer`: the goroutine that it launches, if any, run to its end.
    unfoldable pub start_renewer : (rounds : ℕ) → Config → Exec World (Option Ended)
    start_renewer rounds cfg =
        if cfg.spiffe_socket == ""
        then pure none
        else (do ended ← spiffe_renewer rounds cfg; pure (some ended))
