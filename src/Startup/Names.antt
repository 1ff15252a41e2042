-- ===== src/Startup/Names.antt =====
-- What is registered when the API has started.
use vault_secrets_broker.Prelude.{
  String, ◌≡◌, refl, inl, inr, Bool, List, [], ◌∷◌, arith, lookup, insert, keys, string_eq,
}
use vault_secrets_broker.Exec.{Result-cases, ok}
use vault_secrets_broker.Net.{World, Env}
use vault_secrets_broker.Adapter.Registry
use vault_secrets_broker.Adapter.Registry.{Registry}
use vault_secrets_broker.Vault.{Base64}
use vault_secrets_broker.Auth0
use vault_secrets_broker.Splunk
use vault_secrets_broker.GitHub
use vault_secrets_broker.Datadog
use vault_secrets_broker.SonarQube
use vault_secrets_broker.PagerDuty
use vault_secrets_broker.Startup.{
  build, load_auth0_config, load_splunk_config, load_github_config, load_datadog_config,
  load_sonarqube_config, load_pagerduty_config, register_all, load_registry,
}

abbrev pub provider_names : List String
provider_names = "auth0" ∷ "splunk" ∷ "github" ∷ "datadog" ∷ "sonarqube" ∷ "pagerduty" ∷ []

module _ (env : Env) (base64 : Base64) (transit_key : String) (valid_pem : String → Bool) where
  pub register_all-names :
      (a : Auth0.Auth0) (b : Splunk.Splunk) (c : GitHub.GitHub) (d : Datadog.Datadog)
      (e : SonarQube.SonarQube) (f : PagerDuty.PagerDuty)
      → (r : Registry) × (register_all env base64 transit_key valid_pem
            (Auth0.adapter env a
              ∷ Splunk.adapter env b
              ∷ GitHub.adapter env c
              ∷ Datadog.adapter env d
              ∷ SonarQube.adapter env e
              ∷ PagerDuty.adapter env f
              ∷ [])
            Registry.new_registry
          ≡ ok r)
        × (Registry.names r ≡ provider_names)
  unfolding register_all Registry.register Registry.names Registry.new_registry insert lookup keys
      Auth0.adapter Splunk.adapter GitHub.adapter Datadog.adapter SonarQube.adapter
      PagerDuty.adapter
  register_all-names a b c d e f = (_, refl, refl)

  names-ok :
      (a : Auth0.Auth0) (b : Splunk.Splunk) (c : GitHub.GitHub) (d : Datadog.Datadog)
      (e : SonarQube.SonarQube) (f : PagerDuty.PagerDuty) (r : Registry)
      → register_all env base64 transit_key valid_pem
          (Auth0.adapter env a
            ∷ Splunk.adapter env b
            ∷ GitHub.adapter env c
            ∷ Datadog.adapter env d
            ∷ SonarQube.adapter env e
            ∷ PagerDuty.adapter env f
            ∷ [])
          Registry.new_registry
        ≡ ok r
      → Registry.names r ≡ provider_names
  names-ok a b c d e f r h =
      let (made, k, names) = register_all-names a b c d e f in ground (arith, k, names)

  -- A start that gives a registry has made the six adapters and registered them.
  pub load_registry-registered :
      (w : World) (r : Registry)
      → (load_registry env base64 transit_key valid_pem w).0 ≡ ok r
      → (a : Auth0.Auth0) × (b : Splunk.Splunk) × (c : GitHub.GitHub) × (d : Datadog.Datadog)
        × (e : SonarQube.SonarQube) × (f : PagerDuty.PagerDuty) × (register_all env base64
              transit_key valid_pem
              (Auth0.adapter env a
                ∷ Splunk.adapter env b
                ∷ GitHub.adapter env c
                ∷ Datadog.adapter env d
                ∷ SonarQube.adapter env e
                ∷ PagerDuty.adapter env f
                ∷ [])
              Registry.new_registry
            ≡ ok r)
  unfolding load_registry
  load_registry-registered w r e =
      let m0 =
        build env base64 transit_key "auth0" (load_auth0_config env base64 transit_key) Auth0.new
          w in
      let m1 =
        build env base64 transit_key "splunk" (load_splunk_config env base64 transit_key)
          (Splunk.new valid_pem) m0.1 in
      let m2 =
        build env base64 transit_key "github" (load_github_config env base64 transit_key) GitHub.new
          m1.1 in
      let m3 =
        build env base64 transit_key "datadog" (load_datadog_config env base64 transit_key)
          Datadog.new m2.1 in
      let m4 =
        build env base64 transit_key "sonarqube" (load_sonarqube_config env base64 transit_key)
          SonarQube.new m3.1 in
      let m5 =
        build env base64 transit_key "pagerduty" (load_pagerduty_config env base64 transit_key)
          PagerDuty.new m4.1 in
      elim (Result-cases m0.0) [
        | inl (a0, e0) ↦ elim (Result-cases m1.0) [
          | inl (a1, e1) ↦ elim (Result-cases m2.0) [
            | inl (a2, e2) ↦ elim (Result-cases m3.0) [
              | inl (a3, e3) ↦ elim (Result-cases m4.0) [
                | inl (a4, e4) ↦ elim (Result-cases m5.0) [
                  | inl (a5, e5) ↦ (a0, a1, a2, a3, a4, a5, ground arith)
                  | inr x ↦ absurd (ground arith)
                ]
                | inr x ↦ absurd (ground arith)
              ]
              | inr x ↦ absurd (ground arith)
            ]
            | inr x ↦ absurd (ground arith)
          ]
          | inr x ↦ absurd (ground arith)
        ]
        | inr x ↦ absurd (ground arith)
      ]

  -- Where the start gives a registry, it holds exactly the six providers.
  load_registry-names :
      (w : World) (r : Registry)
      → (load_registry env base64 transit_key valid_pem w).0 ≡ ok r
      → Registry.names r ≡ provider_names
  load_registry-names w r h =
      let (a, b, c, d, e, f, made) = load_registry-registered w r h in names-ok a b c d e f r made
