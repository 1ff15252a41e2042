-- ===== src/Tests/Lifecycle.antt =====
-- Credentials from their creation to their deletion, on small examples.
use vault_secrets_broker.Prelude.{
  ℕ, String, ◌≡◌, refl, true, false, some, [], ◌∷◌, arith, ◌==◌, string_eq, if◌then◌else◌,
  lookup_nonempty, eq_iff,
}
use vault_secrets_broker.Prelude.Int.{pos}
use vault_secrets_broker.Json.{Json}
use vault_secrets_broker.Exec.{ok}
use vault_secrets_broker.Net.{Env, clock_read, World, start, response, record_event}
use vault_secrets_broker.Adapter.{CredentialStatus}
use vault_secrets_broker.Adapter.Shared.{random_hex}
use vault_secrets_broker.Adapter.Shared.Drain.{count}
use vault_secrets_broker.Adapter.Shared.Provider.{Forgets}
use vault_secrets_broker.Adapter.Shared.OldCredential.{Accounted}
use vault_secrets_broker.Splunk
use vault_secrets_broker.Splunk.{Splunk}
use vault_secrets_broker.Splunk.OldToken
use vault_secrets_broker.Splunk.OldToken.{splunk_drain-rotate}
use vault_secrets_broker.PagerDuty
use vault_secrets_broker.PagerDuty.{PagerDuty}
use vault_secrets_broker.PagerDuty.OldKey
use vault_secrets_broker.PagerDuty.OldKey.{pagerduty_drain-rotate}
use vault_secrets_broker.Datadog
use vault_secrets_broker.Datadog.{Datadog}
use vault_secrets_broker.Datadog.Creation.{Serves, datadog_status-rotate}
use vault_secrets_broker.Datadog.Lifecycle.{datadog_status-revoke}
use vault_secrets_broker.GitHub
use vault_secrets_broker.GitHub.{GitHub}
use vault_secrets_broker.GitHub.Lifecycle.{github_status-revoke}
use vault_secrets_broker.Tests.Rotations.{splunk, pagerduty, datadog}
use vault_secrets_broker.Tests.{
  env_of, encrypted, entry_body, key_body, data_body, rotate_request, revoke_request,
}

-- A provider that forgets all: it creates and deletes whatever it is asked to, and finds nothing.
abbrev code_of : (method : String) → ℕ
code_of m = if m == "GET" then 404 else if m == "DELETE" then 204 else 201

abbrev forgetful : Json → Env
forgetful body = record (env_of 201 body encrypted) {
  respond = λ t r. response (record { status = code_of r.method; body = some body });
}

forgetful-Forgets : (body : Json) → Forgets (forgetful body)
forgetful-Forgets body es r resp m d e = ground (arith, eq_iff r.method "GET")

abbrev github : GitHub
github = record { base_url = "https://gh"; admin_pat = "admin" }

abbrev inactive : CredentialStatus
inactive = record { provider_id = "k1"; credential_id = "k1"; active = false; checked_at = pos 5 }

abbrev dd_env : Env
dd_env = forgetful key_body

-- After the revocation, and one look at the clock.
abbrev dd_later : World
dd_later = record_event clock_read (Datadog.revoke dd_env datadog revoke_request start).1

datadog_status-revoke_example : inactive.active ≡ false
unfolding Datadog.revoke Datadog.check_status
datadog_status-revoke_example =
    datadog_status-revoke dd_env datadog (forgetful-Forgets key_body) revoke_request start dd_later
      (clock_read ∷ []) inactive refl refl (tt, tt) refl

-- A provider that does whatever it is asked to, and finds all.
abbrev found_code : (method : String) → ℕ
found_code m = if m == "GET" then 200 else if m == "DELETE" then 204 else 201

abbrev keeping : Env
keeping = record (env_of 201 data_body encrypted) {
  respond = λ t r. response (record { status = found_code r.method; body = some data_body });
}

keeping-Serves : Serves keeping datadog
keeping-Serves id es lives = (record { status = 200; body = some data_body }, refl, refl)

datadog_status-rotate_example :
    (s : CredentialStatus) × ((Datadog.check_status keeping datadog "k1"
        (Datadog.rotate keeping datadog rotate_request start).1).0
      ≡ ok s)
    × (s.active ≡ true)
unfolding Datadog.rotate Datadog.rotate_held random_hex lookup_nonempty Datadog.create_key
datadog_status-rotate_example =
    datadog_status-rotate keeping datadog keeping-Serves rotate_request start
      (record {
        provider_id = "svc";
        credential_id = "k1";
        credential = "dd-1";
        rotated_at = pos 5;
      })
      refl refl

abbrev gh_later : World
gh_later = record_event clock_read (GitHub.revoke dd_env github revoke_request start).1

github_status-revoke_example : (record inactive { provider_id = "" }).active ≡ false
unfolding GitHub.revoke GitHub.check_status
github_status-revoke_example =
    github_status-revoke dd_env github (forgetful-Forgets key_body) revoke_request start gh_later
      (clock_read ∷ []) (record inactive { provider_id = "" }) refl refl (tt, tt) refl

abbrev sp_env : Env
sp_env = forgetful entry_body

splunk_drain-rotate_example :
    Accounted sp_env
      (OldToken.resource sp_env splunk)
      "old_token"
      "svc-old"
      (Splunk.drain sp_env splunk (Splunk.rotate sp_env splunk rotate_request start).1).1.trace
unfolding Splunk.rotate Splunk.rotate_held random_hex lookup_nonempty count Splunk.create_token
splunk_drain-rotate_example =
    splunk_drain-rotate sp_env splunk rotate_request start "svc-old"
      (record {
        provider_id = "svc";
        credential_id = "svc-20240101T000000Z-abcd";
        credential = "hec-1";
        rotated_at = pos 5;
      })
      refl refl (omega arith)

pagerduty_drain-rotate_example :
    Accounted dd_env
      (OldKey.resource dd_env pagerduty)
      "old_key_id"
      "k0"
      (PagerDuty.drain dd_env pagerduty
        (PagerDuty.rotate dd_env pagerduty rotate_request start).1).1.trace
unfolding PagerDuty.rotate PagerDuty.rotate_held random_hex lookup_nonempty count
    PagerDuty.create_key
pagerduty_drain-rotate_example =
    pagerduty_drain-rotate dd_env pagerduty rotate_request start "k0"
      (record {
        provider_id = "svc";
        credential_id = "p1";
        credential = "pd-1";
        rotated_at = pos 5;
      })
      refl refl (omega arith)
