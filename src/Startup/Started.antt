-- ===== src/Startup/Started.antt =====
-- The registry that the start builds where Vault holds the six configurations.
use vault_secrets_broker.Prelude.{String, ◌≡◌, Bool, List, [], ◌∷◌, arith}
use vault_secrets_broker.Exec.{ok}
use vault_secrets_broker.Net.{World, Env}
use vault_secrets_broker.Adapter.{Adapter}
use vault_secrets_broker.Adapter.Registry
use vault_secrets_broker.Adapter.Registry.{Registry}
use vault_secrets_broker.Vault.{Base64}
use vault_secrets_broker.Vault.Transit.{Honest, Decodes}
use vault_secrets_broker.Auth0
use vault_secrets_broker.Splunk
use vault_secrets_broker.GitHub
use vault_secrets_broker.Datadog
use vault_secrets_broker.SonarQube
use vault_secrets_broker.PagerDuty
use vault_secrets_broker.Startup.Names.{provider_names, register_all-names}
use vault_secrets_broker.Startup.Provisioned.{
  build-ok, Auth0Ready, load_auth0_config-ok, SplunkReady, load_splunk_config-ok, GitHubReady,
  load_github_config-ok, DatadogReady, load_datadog_config-ok, SonarQubeReady,
  load_sonarqube_config-ok, PagerDutyReady, load_pagerduty_config-ok,
}
use vault_secrets_broker.Startup.{
  build, load_auth0_config, load_splunk_config, load_github_config, load_datadog_config,
  load_sonarqube_config, load_pagerduty_config, register_all, load_registry,
}

module _ (env : Env) (base64 : Base64) (key : String) (valid_pem : String → Bool) where
  -- The configurations that an operator has put into Vault, each secret encrypted by Transit, and the
  -- adapters that the constructors make of them.
  pub record Provisioned : Type 0 where
    pub auth0_config : Auth0.Config
    pub auth0_ready : Auth0Ready env base64 key auth0_config
    pub auth0 : Auth0.Auth0
    pub auth0_accepted : Auth0.new auth0_config ≡ ok auth0
    pub splunk_config : Splunk.Config
    pub splunk_ready : SplunkReady env base64 key splunk_config
    pub splunk : Splunk.Splunk
    pub splunk_accepted : Splunk.new valid_pem splunk_config ≡ ok splunk
    pub github_config : GitHub.Config
    pub github_ready : GitHubReady env base64 key github_config
    pub github : GitHub.GitHub
    pub github_accepted : GitHub.new github_config ≡ ok github
    pub datadog_config : Datadog.Config
    pub datadog_ready : DatadogReady env base64 key datadog_config
    pub datadog : Datadog.Datadog
    pub datadog_accepted : Datadog.new datadog_config ≡ ok datadog
    pub sonarqube_config : SonarQube.Config
    pub sonarqube_ready : SonarQubeReady env base64 key sonarqube_config
    pub sonarqube : SonarQube.SonarQube
    pub sonarqube_accepted : SonarQube.new sonarqube_config ≡ ok sonarqube
    pub pagerduty_config : PagerDuty.Config
    pub pagerduty_ready : PagerDutyReady env base64 key pagerduty_config
    pub pagerduty : PagerDuty.PagerDuty
    pub pagerduty_accepted : PagerDuty.new pagerduty_config ≡ ok pagerduty

  abbrev pub adapters : Provisioned → List Adapter
  adapters p =
      Auth0.adapter env p.auth0
      ∷ Splunk.adapter env p.splunk
      ∷ GitHub.adapter env p.github
      ∷ Datadog.adapter env p.datadog
      ∷ SonarQube.adapter env p.sonarqube
      ∷ PagerDuty.adapter env p.pagerduty
      ∷ []

  -- Where Vault holds the six configurations, with their secrets as Transit encrypted them, and gives
  -- back what it has encrypted: the start succeeds, and the registry holds the six adapters, made of
  -- these very configurations with the secrets in plaintext.
  pub load_registry-Provisioned :
      Honest env base64 key
      → Decodes env base64 key
      → (p : Provisioned) (w : World)
      → (r : Registry) × ((load_registry env base64 key valid_pem w).0 ≡ ok r)
        × (register_all env base64 key valid_pem (adapters p) Registry.new_registry ≡ ok r)
        × (Registry.names r ≡ provider_names)
  unfolding load_registry
  load_registry-Provisioned honest decodes p w =
      let (r, made, names) =
        register_all-names env base64 key valid_pem p.auth0 p.splunk p.github p.datadog p.sonarqube
          p.pagerduty in
      let e0 =
        build-ok env base64 key "auth0" (load_auth0_config env base64 key) Auth0.new p.auth0_config
          p.auth0 (load_auth0_config-ok env base64 key honest decodes p.auth0_config p.auth0_ready)
          p.auth0_accepted w in
      let w0 = (build env base64 key "auth0" (load_auth0_config env base64 key) Auth0.new w).1 in
      let e1 =
        build-ok env base64 key "splunk" (load_splunk_config env base64 key) (Splunk.new valid_pem)
          p.splunk_config p.splunk
          (load_splunk_config-ok env base64 key honest decodes p.splunk_config p.splunk_ready)
          p.splunk_accepted w0 in
      let w1 =
        (build env base64 key "splunk" (load_splunk_config env base64 key) (Splunk.new valid_pem)
          w0).1 in
      let e2 =
        build-ok env base64 key "github" (load_github_config env base64 key) GitHub.new
          p.github_config p.github
          (load_github_config-ok env base64 key honest decodes p.github_config p.github_ready)
          p.github_accepted w1 in
      let w2 =
        (build env base64 key "github" (load_github_config env base64 key) GitHub.new w1).1 in
      let e3 =
        build-ok env base64 key "datadog" (load_datadog_config env base64 key) Datadog.new
          p.datadog_config p.datadog
          (load_datadog_config-ok env base64 key honest decodes p.datadog_config p.datadog_ready)
          p.datadog_accepted w2 in
      let w3 =
        (build env base64 key "datadog" (load_datadog_config env base64 key) Datadog.new w2).1 in
      let e4 =
        build-ok env base64 key "sonarqube" (load_sonarqube_config env base64 key) SonarQube.new
          p.sonarqube_config p.sonarqube
          (load_sonarqube_config-ok env base64 key honest decodes p.sonarqube_config
            p.sonarqube_ready)
          p.sonarqube_accepted w3 in
      let w4 =
        (build env base64 key "sonarqube" (load_sonarqube_config env base64 key) SonarQube.new
          w3).1 in
      let e5 =
        build-ok env base64 key "pagerduty" (load_pagerduty_config env base64 key) PagerDuty.new
          p.pagerduty_config p.pagerduty
          (load_pagerduty_config-ok env base64 key honest decodes p.pagerduty_config
            p.pagerduty_ready)
          p.pagerduty_accepted w4 in
      (r, ground (arith, e0, e1, e2, e3, e4, e5, made), made, names)
