-- ===== src/Tests/Rotations.antt =====
-- The adapters on small examples.
use vault_secrets_broker.Prelude.{
  ◌∷◌, String, ◌≡◌, refl, ◌↔◌, false, ◌||◌, none, ◌==◌, nat_eq, lookup_nonempty,
}
use vault_secrets_broker.Prelude.Text
use vault_secrets_broker.Prelude.Int.{pos}
use vault_secrets_broker.Exec.{ok}
use vault_secrets_broker.Net.{start, sent, clock_read, random_read, slot_taken, slot_released}
use vault_secrets_broker.Adapter.Shared.{random_hex}
use vault_secrets_broker.Adapter.Shared.Contract.{IsRotation}
use vault_secrets_broker.Adapter.Shared.Deletion.{Accepted}
use vault_secrets_broker.SonarQube
use vault_secrets_broker.SonarQube.{SonarQube}
use vault_secrets_broker.SonarQube.Rotation.{sonarqube_rotate-IsRotation}
use vault_secrets_broker.Adapter.{RevokeRequest}
use vault_secrets_broker.SonarQube.Revocation.{sonarqube_revoke-eq-ok_iff}
use vault_secrets_broker.SonarQube.CredentialId.{
  generate_request, token_type_of, rotate-credential_id,
}
use vault_secrets_broker.Splunk
use vault_secrets_broker.Splunk.{Splunk}
use vault_secrets_broker.Splunk.Rotation.{splunk_rotate-IsRotation}
use vault_secrets_broker.Datadog
use vault_secrets_broker.Datadog.{Datadog}
use vault_secrets_broker.PagerDuty
use vault_secrets_broker.PagerDuty.{PagerDuty}
use vault_secrets_broker.PagerDuty.Rotation.{pagerduty_rotate-IsRotation}
use vault_secrets_broker.Tests.{
  env_of, encrypted, token_body, entry_body, data_body, key_body, rotate_request,
}

abbrev sonarqube : SonarQube
sonarqube = record { base_url = "https://sq"; admin_token = "admin" }

abbrev pub splunk : Splunk
splunk = record {
  base_url = "https://sp";
  auth_token = "admin";
  insecure = false;
  root_cas = none;
  default_index = "main";
  default_sourcetype = "";
}

abbrev pub pagerduty : PagerDuty
pagerduty = record { base_url = "https://pd"; api_key = "admin"; email = "a@b" }

abbrev pub datadog : Datadog
datadog = record {
  base_url = "https://dd";
  admin_api_key = "api";
  admin_app_key = "app";
  key_type = "api_key";
}

abbrev sonarqube_revoke : RevokeRequest
sonarqube_revoke = record { provider_id = "svc"; credential_id = "svc:t1" }

sonarqube_rotate-IsRotation_example :
    IsRotation "sonarqube" "old_token_name" rotate_request start
      (SonarQube.rotate (env_of 200 token_body encrypted) sonarqube rotate_request start)
sonarqube_rotate-IsRotation_example =
    sonarqube_rotate-IsRotation (env_of 200 token_body encrypted) sonarqube rotate_request start

rotate-credential_id_example :
    (name : String) × (SonarQube.parse_credential_id "svc:svc-20240101T000000Z-abcd"
      ≡ ok ("svc", name))
    × ((SonarQube.rotate (env_of 200 token_body encrypted) sonarqube rotate_request start).1.trace
        ≡ slot_released SonarQube.adapter_name
          ∷ clock_read
          ∷ sent (generate_request sonarqube "svc" name (token_type_of rotate_request))
          ∷ clock_read
          ∷ random_read
          ∷ slot_taken SonarQube.adapter_name
          ∷ start.trace)
unfolding SonarQube.rotate SonarQube.rotate_held SonarQube.generate_token random_hex Text.contains
    lookup_nonempty
rotate-credential_id_example =
    rotate-credential_id (env_of 200 token_body encrypted) sonarqube rotate_request start
      (record {
        provider_id = "svc";
        credential_id = "svc:svc-20240101T000000Z-abcd";
        credential = "squ_1";
        rotated_at = pos 5;
      })
      refl refl

splunk_rotate-IsRotation_example :
    IsRotation "splunk" "old_token_name" rotate_request start
      (Splunk.rotate (env_of 201 entry_body encrypted) splunk rotate_request start)
splunk_rotate-IsRotation_example =
    splunk_rotate-IsRotation (env_of 201 entry_body encrypted) splunk rotate_request start

-- The rotation of the example succeeds.
splunk_rotate_test :
    (Splunk.rotate (env_of 201 entry_body encrypted) splunk rotate_request start).0
    ≡ ok (record {
      provider_id = "svc";
      credential_id = "svc-20240101T000000Z-abcd";
      credential = "hec-1";
      rotated_at = pos 5;
    })
unfolding Splunk.rotate Splunk.rotate_held Splunk.create_token random_hex lookup_nonempty
splunk_rotate_test = refl

datadog_rotate_test :
    (Datadog.rotate (env_of 201 data_body encrypted) datadog rotate_request start).0
    ≡ ok (record {
      provider_id = "svc";
      credential_id = "k1";
      credential = "dd-1";
      rotated_at = pos 5;
    })
unfolding Datadog.rotate Datadog.rotate_held Datadog.create_key random_hex lookup_nonempty
datadog_rotate_test = refl

pagerduty_rotate-IsRotation_example :
    IsRotation "pagerduty" "old_key_id" rotate_request start
      (PagerDuty.rotate (env_of 201 key_body encrypted) pagerduty rotate_request start)
pagerduty_rotate-IsRotation_example =
    pagerduty_rotate-IsRotation (env_of 201 key_body encrypted) pagerduty rotate_request start

pagerduty_rotate_test :
    (PagerDuty.rotate (env_of 201 key_body encrypted) pagerduty rotate_request start).0
    ≡ ok (record {
      provider_id = "svc";
      credential_id = "p1";
      credential = "pd-1";
      rotated_at = pos 5;
    })
unfolding PagerDuty.rotate PagerDuty.rotate_held PagerDuty.create_key random_hex lookup_nonempty
pagerduty_rotate_test = refl

sonarqube_revoke-eq-ok_iff_example :
    ((SonarQube.revoke (env_of 404 token_body encrypted) sonarqube sonarqube_revoke start).0
      ≡ ok tt)
    ↔ ((parts : String × String) × (SonarQube.parse_credential_id "svc:t1" ≡ ok parts)
        × Accepted
            (env_of 404 token_body encrypted)
            start
            (SonarQube.Revocation.revocation
              (env_of 404 token_body encrypted)
              sonarqube
              parts.0
              parts.1)
            (λ c. c == 204 || c == 404))
sonarqube_revoke-eq-ok_iff_example =
    sonarqube_revoke-eq-ok_iff (env_of 404 token_body encrypted) sonarqube sonarqube_revoke start
