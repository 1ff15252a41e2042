-- ===== src/Tests/Start.antt =====
-- The start of the API on a small example.
use vault_secrets_broker.Prelude.{
  lookup, insert, if◌then◌else◌, ◌==◌, string_eq, String, ◌≡◌, refl, true, none, [],
}
use vault_secrets_broker.Json.{Fields, end, field, str}
use vault_secrets_broker.Exec.{Result, ok}
use vault_secrets_broker.Net.{World, Env, start, VaultReply, secret}
use vault_secrets_broker.Adapter.Registry
use vault_secrets_broker.Adapter.Registry.{Registry}
use vault_secrets_broker.Vault.{
  kv_get, string_field, must_string_field, lookup_field, transit_decrypt, issue_pki_cert,
}
use vault_secrets_broker.Vault.Login.{Spire, ClientSetup, new, new_from_env, login}
use vault_secrets_broker.Vault.Certificates.{
  Tls, no_client_cert, require_and_verify_client_cert, version_tls13, load_ca_cert_pool,
  tls_config_from_issued_cert,
}
use vault_secrets_broker.Server.{Request}
use vault_secrets_broker.Server.Authz.{Handler, cert_authz}
use vault_secrets_broker.Server.Routes
use vault_secrets_broker.Server.Routes.{Server}
use vault_secrets_broker.Auth0
use vault_secrets_broker.Splunk
use vault_secrets_broker.GitHub
use vault_secrets_broker.Datadog
use vault_secrets_broker.SonarQube
use vault_secrets_broker.PagerDuty
use vault_secrets_broker.Startup.{
  build, load_auth0_config, load_splunk_config, load_github_config, load_datadog_config,
  load_sonarqube_config, load_pagerduty_config, register_all, load_registry,
}
use vault_secrets_broker.Startup.Run.{
  build_tls_config, server_config, boot, boot-unrestricted, boot-mutual_tls,
}
use vault_secrets_broker.Tests.{env_of, token_body, plain64}

unfoldable pub text : String → Fields → Fields
text k fs = field k (str "x") fs

-- What KV holds, Transit decrypts and PKI issues.
abbrev pub everything : VaultReply
unfolding text
everything = secret (record {
  content = text "domain" (
      text "mgmt_client_id" (
        text "mgmt_audience" (
          text "mgmt_client_secret_encrypted" (
            text "base_url" (
              text "auth_token_encrypted" (
                text "admin_pat_encrypted" (
                  text "admin_api_key_encrypted" (
                    text "admin_app_key_encrypted" (
                      text "admin_token_encrypted" (
                        text "api_key_encrypted" (
                          text "email" (
                            text "plaintext" (
                              text "certificate" (
                                text "private_key"
                                  (field "key_type" (str "api_key") end)))))))))))))));
  auth = none;
})

abbrev env : Env
unfolding everything
env = record (env_of 200 token_body everything) { vault_read = λ t token path. everything }

abbrev pub getenv : String → String
getenv key = if key == "VAULT_TOKEN" then "root" else ""

abbrev pub spire : Spire
spire = record {
  connect = λ t socket. none;
  fetch = λ t socket audience. ok (record { marshal = "jwt"; trust_domain = "" });
}

abbrev pub tls : Tls
tls = record { append_certs = λ s. true; key_pair = λ c k. none }

abbrev pub setup : ClientSetup
setup = record { configure_tls = λ p. none; new_client = none }

abbrev first_server : Result Server → Server
first_server (ok s) = s
first_server _ = record {
  addr = "";
  tls_config = record {
    certificate = ("", "");
    client_cas = "";
    client_auth = no_client_cert;
    min_version = 0;
  };
  handlers = record { registry = record { adapters = [] }; transit_key_name = "" };
  limit = 0;
  allowlist = [];
}

abbrev started : Server
started = first_server (boot env getenv (λ s. ok "pem") tls plain64 spire setup start).0

boot-unrestricted_example :
    (started.limit ≡ 100)
    × ((next : Handler) (r : Request) (u : World)
        → cert_authz started.allowlist next r u ≡ next r u)
unfolding boot build_tls_config server_config Routes.new new login new_from_env issue_pki_cert env
    load_ca_cert_pool tls_config_from_issued_cert load_registry build load_auth0_config kv_get
    string_field transit_decrypt Auth0.new load_splunk_config Splunk.new must_string_field
    load_github_config GitHub.new load_datadog_config Datadog.new load_sonarqube_config
    SonarQube.new load_pagerduty_config PagerDuty.new register_all Registry.register
    Registry.new_registry lookup_field lookup insert Auth0.adapter Splunk.adapter GitHub.adapter
    Datadog.adapter SonarQube.adapter PagerDuty.adapter
boot-unrestricted_example =
    boot-unrestricted env getenv (λ s. ok "pem") tls plain64 spire setup start started refl

boot-mutual_tls_example :
    (started.tls_config.client_auth ≡ require_and_verify_client_cert)
    × (◌≡◌ {A = Result String} (ok "pem") (ok started.tls_config.client_cas))
    × (tls.append_certs started.tls_config.client_cas ≡ true)
    × (started.tls_config.min_version ≡ version_tls13)
unfolding boot build_tls_config server_config Routes.new new login new_from_env issue_pki_cert env
    load_ca_cert_pool tls_config_from_issued_cert load_registry build load_auth0_config kv_get
    string_field transit_decrypt Auth0.new load_splunk_config Splunk.new must_string_field
    load_github_config GitHub.new load_datadog_config Datadog.new load_sonarqube_config
    SonarQube.new load_pagerduty_config PagerDuty.new register_all Registry.register
    Registry.new_registry lookup_field lookup insert Auth0.adapter Splunk.adapter GitHub.adapter
    Datadog.adapter SonarQube.adapter PagerDuty.adapter
boot-mutual_tls_example =
    boot-mutual_tls env getenv (λ s. ok "pem") tls plain64 spire setup start started refl
