-- ===== src/Tests/Provision.antt =====
-- The start of the API, on a Vault that holds what it needs.
use vault_secrets_broker.Prelude.{
  ℕ, none, ◌↔◌, Option, arith, ◌≡◌, ◌≢◌, refl, true, false, String, lookup,
}
use vault_secrets_broker.Exec.{ok, Error, msg}
use vault_secrets_broker.Json.{Fields, end, field, str}
use vault_secrets_broker.Net.{Env, start, VaultReply, secret}
use vault_secrets_broker.Adapter.Registry
use vault_secrets_broker.Adapter.Registry.{Registry}
use vault_secrets_broker.Vault.{
  kv_get, string_field, must_string_field, transit_encrypt, lookup_field,
}
use vault_secrets_broker.Auth0
use vault_secrets_broker.Splunk
use vault_secrets_broker.GitHub
use vault_secrets_broker.Datadog
use vault_secrets_broker.SonarQube
use vault_secrets_broker.PagerDuty
use vault_secrets_broker.Startup.Names.{provider_names}
use vault_secrets_broker.Startup.Started.{Provisioned}
use vault_secrets_broker.Tests.{seven_tenths, env_of, token_body, plain64}
use vault_secrets_broker.Tests.Start.{everything, text, getenv, tls, spire, setup}
use vault_secrets_broker.Startup.Run.{context_ended, boot, main}
use vault_secrets_broker.Prelude.Int.{pos, negsuc}
use vault_secrets_broker.Vault.Login.Rounds.{Positive}
use vault_secrets_broker.Startup.Run.Exits.{main-exits}
use vault_secrets_broker.Server.Listen.{Listener}
use vault_secrets_broker.Vault.{IssuedCert}
use vault_secrets_broker.Vault.Login.{new}
use vault_secrets_broker.Server.Routes.{Server}

-- A Vault that holds all that is read, keeps texts as they are, and issues certificates.
abbrev answer : Fields → VaultReply
answer (field k (str x) end) =
    secret
      (record { content = field "ciphertext" (str x) (field "plaintext" (str x) end); auth = none })
answer _ = everything

abbrev env : Env
env = record (env_of 200 token_body everything) {
  vault_read = λ t token path. everything;
  vault_write = λ t token path d. answer d;
}

abbrev transit_key : String
transit_key = "cred-rotation-key"

x-ne-nil : ◌≢◌ {A = String} "x" ""
x-ne-nil e = cc

abbrev content_of : VaultReply → Fields
content_of (secret s) = s.content
content_of _ = end

abbrev document : Fields
document = content_of everything

abbrev provisioned : Provisioned env plain64 transit_key (λ pem. true)
unfolding text kv_get string_field must_string_field transit_encrypt lookup_field lookup Auth0.new
    Splunk.new GitHub.new Datadog.new SonarQube.new PagerDuty.new
provisioned = record {
  auth0_config = record { domain = "x"; client_id = "x"; client_secret = "x"; audience = "x" };
  auth0_ready = (document, λ w. refl, refl, refl, refl, ("x", start, refl, x-ne-nil, refl));
  auth0 = _;
  auth0_accepted = refl;
  splunk_config = record {
    base_url = "x";
    auth_token = "x";
    ca_cert = "";
    insecure = false;
    default_index = "";
    default_sourcetype = "";
  };
  splunk_ready =
      (document, λ w. refl, refl, ("x", start, refl, x-ne-nil, refl), refl, refl, refl, refl);
  splunk = _;
  splunk_accepted = refl;
  github_config = record { base_url = "x"; admin_pat = "x" };
  github_ready = (document, λ w. refl, ("x", start, refl, x-ne-nil, refl), refl);
  github = _;
  github_accepted = refl;
  datadog_config = record {
    admin_api_key = "x";
    admin_app_key = "x";
    base_url = "x";
    key_type = "api_key";
  };
  datadog_ready = (
    document,
    λ w. refl,
    ("x", start, refl, x-ne-nil, refl),
    ("x", start, refl, x-ne-nil, refl),
    refl,
    refl,
  );
  datadog = _;
  datadog_accepted = refl;
  sonarqube_config = record { base_url = "x"; admin_token = "x" };
  sonarqube_ready = (document, λ w. refl, refl, ("x", start, refl, x-ne-nil, refl));
  sonarqube = _;
  sonarqube_accepted = refl;
  pagerduty_config = record { api_key = "x"; email = "x"; base_url = "x" };
  pagerduty_ready = (document, λ w. refl, ("x", start, refl, x-ne-nil, refl), refl, refl);
  pagerduty = _;
  pagerduty_accepted = refl;
}

abbrev issued : IssuedCert
issued = record { certificate = "x"; private_key = "x"; ca_chain = "" }

-- The end of `run` by a signal, where the HTTP server shuts down.
abbrev listener : Listener
listener = record { listen = λ t addr c. ok addr; serve = λ t. msg "http: Server closed" }

seven_tenths-Positive : Positive env spire seven_tenths
seven_tenths-Positive (pos n) e = ground arith
seven_tenths-Positive (negsuc n) e = absurd (ground arith)

main-exits_example :
    ((main env getenv
        (λ f. ok "pem")
        tls
        plain64
        spire
        setup
        listener
        seven_tenths
        (context_ended 2)
        none
        provider_names
        start).0
      ≡ ok 0)
    ↔ (((s : Server) × ((boot env getenv (λ f. ok "pem") tls plain64 spire setup start).0 ≡ ok s))
        × (((rounds : ℕ) × (context_ended 2 ≡ context_ended rounds))
            × (◌≡◌ {A = Option Error} none none)))
main-exits_example =
    main-exits env getenv (λ f. ok "pem") tls plain64 spire setup listener seven_tenths
      (λ es socket audience p e. ground arith) seven_tenths-Positive (context_ended 2) none
      provider_names start
