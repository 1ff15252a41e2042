-- ===== src/Startup.antt =====
-- cred-rotation-api/main.go: the configurations of the adapters, from KV and Transit, and the
-- registry that `run` builds of them.
-- `valid_pem` stands for crypto/x509, as in the Splunk adapter.
pub mod Names
pub mod Provisioned
pub mod Started
pub mod Drains
pub mod Run
use Prim.Native.String.{◌++◌}
use vault_secrets_broker.Prelude.{String, Bool, List, [], ◌∷◌}
use vault_secrets_broker.Json.{Fields}
use vault_secrets_broker.Exec.{
  Error, wrap, Result, ok, err, panic, Exec, pure, lift, ◌>>=◌, map_err, context,
}
use vault_secrets_broker.Net.{World, Env}
use vault_secrets_broker.Adapter.{Adapter}
use vault_secrets_broker.Adapter.Registry.{Registry, new_registry, register}
use vault_secrets_broker.Vault.{Base64, string_field, must_string_field, transit_decrypt, kv_get}
use vault_secrets_broker.Auth0
use vault_secrets_broker.Splunk
use vault_secrets_broker.GitHub
use vault_secrets_broker.Datadog
use vault_secrets_broker.SonarQube
use vault_secrets_broker.PagerDuty

module _ (env : Env) (base64 : Base64) (transit_key : String) where
  abbrev read : String → Exec World Fields
  read path = context (wrap ("kv read " ++ path)) (kv_get env path)

  abbrev decrypt : (what ciphertext : String) → Exec World String
  decrypt what ciphertext =
      context (wrap ("transit decrypt " ++ what))
        (transit_decrypt env base64 transit_key ciphertext)

  unfoldable pub load_auth0_config : Exec World Auth0.Config
  load_auth0_config = do
    content ← read "secret/data/cred-rotation-api/adapters/auth0"
    domain ← lift (string_field content "domain")
    client_id ← lift (string_field content "mgmt_client_id")
    audience ← lift (string_field content "mgmt_audience")
    encrypted_secret ← lift (string_field content "mgmt_client_secret_encrypted")
    plain_secret ← decrypt "client_secret" encrypted_secret
    pure (record {
      domain = domain;
      client_id = client_id;
      client_secret = plain_secret;
      audience = audience;
    })

  unfoldable pub load_splunk_config : Exec World Splunk.Config
  load_splunk_config = do
    content ← read "secret/data/cred-rotation-api/adapters/splunk"
    base_url ← lift (string_field content "base_url")
    encrypted_token ← lift (string_field content "auth_token_encrypted")
    plain_token ← decrypt "auth_token" encrypted_token
    pure (record {
      base_url = base_url;
      auth_token = plain_token;
      ca_cert = must_string_field content "ca_cert";
      insecure = Bool.false;
      default_index = must_string_field content "default_index";
      default_sourcetype = must_string_field content "default_sourcetype";
    })

  unfoldable pub load_github_config : Exec World GitHub.Config
  load_github_config = do
    content ← read "secret/data/cred-rotation-api/adapters/github"
    encrypted_pat ← lift (string_field content "admin_pat_encrypted")
    plain_pat ← decrypt "admin_pat" encrypted_pat
    pure (record { base_url = must_string_field content "base_url"; admin_pat = plain_pat })

  unfoldable pub load_datadog_config : Exec World Datadog.Config
  load_datadog_config = do
    content ← read "secret/data/cred-rotation-api/adapters/datadog"
    encrypted_api_key ← lift (string_field content "admin_api_key_encrypted")
    encrypted_app_key ← lift (string_field content "admin_app_key_encrypted")
    plain_api_key ← decrypt "admin_api_key" encrypted_api_key
    plain_app_key ← decrypt "admin_app_key" encrypted_app_key
    pure (record {
      admin_api_key = plain_api_key;
      admin_app_key = plain_app_key;
      base_url = must_string_field content "base_url";
      key_type = must_string_field content "key_type";
    })

  unfoldable pub load_sonarqube_config : Exec World SonarQube.Config
  load_sonarqube_config = do
    content ← read "secret/data/cred-rotation-api/adapters/sonarqube"
    base_url ← lift (string_field content "base_url")
    encrypted_token ← lift (string_field content "admin_token_encrypted")
    plain_token ← decrypt "admin_token" encrypted_token
    pure (record { base_url = base_url; admin_token = plain_token })

  unfoldable pub load_pagerduty_config : Exec World PagerDuty.Config
  load_pagerduty_config = do
    content ← read "secret/data/cred-rotation-api/adapters/pagerduty"
    encrypted_api_key ← lift (string_field content "api_key_encrypted")
    email ← lift (string_field content "email")
    plain_api_key ← decrypt "api_key" encrypted_api_key
    pure (record {
      api_key = plain_api_key;
      email = email;
      base_url = must_string_field content "base_url";
    })

  -- one adapter of `run`: its configuration, then its constructor
  unfoldable pub build :
      {C A : Type 0} → (name : String) → Exec World C → (C → Result A) → Exec World A
  build name load new = do
    cfg ← context (wrap ("load " ++ name ++ " config")) load
    context (wrap ("build " ++ name ++ " adapter")) (lift (new cfg))

  module _ (valid_pem : String → Bool) where
    -- the six calls of `Register`, in order
    unfoldable pub register_all : List Adapter → Registry → Result Registry
    register_all [] registry = ok registry
    register_all (a ∷ as') registry = elim (register a registry) [
      | ok next ↦ register_all as' next
      | err e ↦ err e
      | panic p ↦ panic p
    ]

    unfoldable pub load_registry : Exec World Registry
    load_registry = do
      auth0 ← build "auth0" load_auth0_config Auth0.new
      splunk ← build "splunk" load_splunk_config (Splunk.new valid_pem)
      github ← build "github" load_github_config GitHub.new
      datadog ← build "datadog" load_datadog_config Datadog.new
      sonarqube ← build "sonarqube" load_sonarqube_config SonarQube.new
      pagerduty ← build "pagerduty" load_pagerduty_config PagerDuty.new
      lift (
          register_all
            (Auth0.adapter env auth0
              ∷ Splunk.adapter env splunk
              ∷ GitHub.adapter env github
              ∷ Datadog.adapter env datadog
              ∷ SonarQube.adapter env sonarqube
              ∷ PagerDuty.adapter env pagerduty
              ∷ [])
            new_registry)
