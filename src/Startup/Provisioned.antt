-- ===== src/Startup/Provisioned.antt =====
-- The start of the API where Vault holds the six configurations.
use Prim.Native.String
use vault_secrets_broker.Prelude.{String, ◌≡◌, ◌≢◌, false, arith}
use vault_secrets_broker.Json.{Fields}
use vault_secrets_broker.Exec.{ok, Exec, Result}
use vault_secrets_broker.Net.{World, Env}
use vault_secrets_broker.Vault.{
  Base64, string_field, must_string_field, transit_encrypt, transit_decrypt, kv_get,
}
use vault_secrets_broker.Vault.Transit.{Honest, Decodes, transit_decrypt-Honest}
use vault_secrets_broker.Auth0
use vault_secrets_broker.Splunk
use vault_secrets_broker.GitHub
use vault_secrets_broker.Datadog
use vault_secrets_broker.SonarQube
use vault_secrets_broker.PagerDuty
use vault_secrets_broker.Startup.{
  build, load_auth0_config, load_splunk_config, load_github_config, load_datadog_config,
  load_sonarqube_config, load_pagerduty_config,
}

module _ (env : Env) (base64 : Base64) (key : String) where
  -- Vault's KV engine holds this document.
  abbrev pub Stored : (adapter : String) → Fields → Type 0
  Stored adapter content =
      (w : World)
      → (kv_get env (String.◌++◌ "secret/data/cred-rotation-api/adapters/" adapter) w).0
        ≡ ok content

  -- A field of the document has what Transit once made of this secret.
  abbrev pub Sealed : Fields → (name secret : String) → Type 0
  Sealed content name secret =
      (ct : String) × (v : World) × (string_field content name ≡ ok ct)
      × (base64.encode_to_string secret ≢ "")
      × ((transit_encrypt env base64 key secret v).0 ≡ ok ct)

  unsealed :
      Honest env base64 key
      → Decodes env base64 key
      → (d : Fields) (name secret : String) (h : Sealed d name secret) → (u : World)
      → (transit_decrypt env base64 key h.0 u).0 ≡ ok secret
  unsealed honest decodes d name secret (ct, v, found, there, sealed) u =
      transit_decrypt-Honest env base64 key honest decodes secret ct v u there sealed

  abbrev pub Auth0Ready : Auth0.Config → Type 0
  Auth0Ready c =
      (d : Fields) × Stored "auth0" d
      × (string_field d "domain" ≡ ok c.domain)
      × (string_field d "mgmt_client_id" ≡ ok c.client_id)
      × (string_field d "mgmt_audience" ≡ ok c.audience)
      × Sealed d "mgmt_client_secret_encrypted" c.client_secret

  pub load_auth0_config-ok :
      Honest env base64 key
      → Decodes env base64 key
      → (c : Auth0.Config) → Auth0Ready c
      → (w : World) → (load_auth0_config env base64 key w).0 ≡ ok c
  unfolding load_auth0_config
  load_auth0_config-ok honest decodes c (d, stored, e0, e1, e2, e3) w =
      let u0 = (kv_get env "secret/data/cred-rotation-api/adapters/auth0" w).1 in
      let b0 = unsealed honest decodes d "mgmt_client_secret_encrypted" c.client_secret e3 u0 in
      ground (arith, stored w, b0, e3.2)

  abbrev pub SplunkReady : Splunk.Config → Type 0
  SplunkReady c =
      (d : Fields) × Stored "splunk" d
      × (string_field d "base_url" ≡ ok c.base_url)
      × Sealed d "auth_token_encrypted" c.auth_token
      × (must_string_field d "ca_cert" ≡ c.ca_cert)
      × (c.insecure ≡ false)
      × (must_string_field d "default_index" ≡ c.default_index)
      × (must_string_field d "default_sourcetype" ≡ c.default_sourcetype)

  pub load_splunk_config-ok :
      Honest env base64 key
      → Decodes env base64 key
      → (c : Splunk.Config) → SplunkReady c
      → (w : World) → (load_splunk_config env base64 key w).0 ≡ ok c
  unfolding load_splunk_config
  load_splunk_config-ok honest decodes c (d, stored, e0, e1, e2, e3, e4, e5) w =
      let u0 = (kv_get env "secret/data/cred-rotation-api/adapters/splunk" w).1 in
      let b0 = unsealed honest decodes d "auth_token_encrypted" c.auth_token e1 u0 in
      ground (arith, stored w, b0, e1.2)

  abbrev pub GitHubReady : GitHub.Config → Type 0
  GitHubReady c =
      (d : Fields) × Stored "github" d
      × Sealed d "admin_pat_encrypted" c.admin_pat
      × (must_string_field d "base_url" ≡ c.base_url)

  pub load_github_config-ok :
      Honest env base64 key
      → Decodes env base64 key
      → (c : GitHub.Config) → GitHubReady c
      → (w : World) → (load_github_config env base64 key w).0 ≡ ok c
  unfolding load_github_config
  load_github_config-ok honest decodes c (d, stored, e0, e1) w =
      let u0 = (kv_get env "secret/data/cred-rotation-api/adapters/github" w).1 in
      let b0 = unsealed honest decodes d "admin_pat_encrypted" c.admin_pat e0 u0 in
      ground (arith, stored w, b0, e0.2)

  abbrev pub DatadogReady : Datadog.Config → Type 0
  DatadogReady c =
      (d : Fields) × Stored "datadog" d
      × Sealed d "admin_api_key_encrypted" c.admin_api_key
      × Sealed d "admin_app_key_encrypted" c.admin_app_key
      × (must_string_field d "base_url" ≡ c.base_url)
      × (must_string_field d "key_type" ≡ c.key_type)

  pub load_datadog_config-ok :
      Honest env base64 key
      → Decodes env base64 key
      → (c : Datadog.Config) → DatadogReady c
      → (w : World) → (load_datadog_config env base64 key w).0 ≡ ok c
  unfolding load_datadog_config
  load_datadog_config-ok honest decodes c (d, stored, e0, e1, e2, e3) w =
      let u0 = (kv_get env "secret/data/cred-rotation-api/adapters/datadog" w).1 in
      let b0 = unsealed honest decodes d "admin_api_key_encrypted" c.admin_api_key e0 u0 in
      let u1 = (transit_decrypt env base64 key e0.0 u0).1 in
      let b1 = unsealed honest decodes d "admin_app_key_encrypted" c.admin_app_key e1 u1 in
      ground (arith, stored w, b0, e0.2, b1, e1.2)

  abbrev pub SonarQubeReady : SonarQube.Config → Type 0
  SonarQubeReady c =
      (d : Fields) × Stored "sonarqube" d
      × (string_field d "base_url" ≡ ok c.base_url)
      × Sealed d "admin_token_encrypted" c.admin_token

  pub load_sonarqube_config-ok :
      Honest env base64 key
      → Decodes env base64 key
      → (c : SonarQube.Config) → SonarQubeReady c
      → (w : World) → (load_sonarqube_config env base64 key w).0 ≡ ok c
  unfolding load_sonarqube_config
  load_sonarqube_config-ok honest decodes c (d, stored, e0, e1) w =
      let u0 = (kv_get env "secret/data/cred-rotation-api/adapters/sonarqube" w).1 in
      let b0 = unsealed honest decodes d "admin_token_encrypted" c.admin_token e1 u0 in
      ground (arith, stored w, b0, e1.2)

  abbrev pub PagerDutyReady : PagerDuty.Config → Type 0
  PagerDutyReady c =
      (d : Fields) × Stored "pagerduty" d
      × Sealed d "api_key_encrypted" c.api_key
      × (string_field d "email" ≡ ok c.email)
      × (must_string_field d "base_url" ≡ c.base_url)

  pub load_pagerduty_config-ok :
      Honest env base64 key
      → Decodes env base64 key
      → (c : PagerDuty.Config) → PagerDutyReady c
      → (w : World) → (load_pagerduty_config env base64 key w).0 ≡ ok c
  unfolding load_pagerduty_config
  load_pagerduty_config-ok honest decodes c (d, stored, e0, e1, e2) w =
      let u0 = (kv_get env "secret/data/cred-rotation-api/adapters/pagerduty" w).1 in
      let b0 = unsealed honest decodes d "api_key_encrypted" c.api_key e0 u0 in
      ground (arith, stored w, b0, e0.2)

  pub build-ok :
      {C A : Type 0} (name : String) (load : Exec World C) (new : C → Result A) (c : C) (a : A)
      → ((w : World) → (load w).0 ≡ ok c)
      → new c ≡ ok a
      → (w : World) → (build env base64 key name load new w).0 ≡ ok a
  unfolding build
  build-ok name load new c a h e w = ground (arith, h w)
