-- ===== src/Tests/Clients.antt =====
-- GitHub, Auth0, the drain and the log on small examples.
use vault_secrets_broker.Prelude.{◌+◌, refl, [], ◌∷◌, nat_eq, ◌≤◌}
use vault_secrets_broker.Prelude.Text
use vault_secrets_broker.Prelude.Int.{pos}
use vault_secrets_broker.Json.{Json, end, field, str, num, obj}
use vault_secrets_broker.Adapter.{RotateRequest}
use vault_secrets_broker.Net.{Env, start}
use vault_secrets_broker.Adapter.Shared.{sanitize_for_log}
use vault_secrets_broker.GitHub
use vault_secrets_broker.GitHub.{GitHub}
use vault_secrets_broker.GitHub.Rotation.{Deletes, github_rotate-Deletes}
use vault_secrets_broker.Auth0
use vault_secrets_broker.Auth0.{Auth0, cached}
use vault_secrets_broker.Auth0.Sharing.{
  looking, waiting, done, Crowd, locked_token, looked, look, lock, Run, begin, later,
}
use vault_secrets_broker.Auth0.Sharing.Flight.{Lasting, sent_requests, failures, single_flight}
use vault_secrets_broker.Auth0.Sharing.Flight.{Lasting, sent_requests, failures, single_flight}
use vault_secrets_broker.Adapter.Shared.Sanitize.{IsPrintable, sanitize_for_log-IsPrintable}
use vault_secrets_broker.Tests.{env_of, encrypted, access_body}

abbrev github : GitHub
github = record { base_url = "https://gh"; admin_pat = "admin" }

abbrev auth0 : Auth0
auth0 = record {
  domain = "t.auth0.com";
  client_id = "id";
  client_secret = "secret";
  audience = "aud";
  base_url = "https://t.auth0.com";
}

-- The answer to a creation.
abbrev pat_body : Json
pat_body = obj (field "id" (num (pos 7)) (field "token" (str "ghp_1") end))

abbrev with_old : RotateRequest
with_old = record { provider_id = "svc"; meta = ("old_token_id", "6") ∷ [] }

github_rotate-Deletes_example :
    Deletes
      (env_of 201 pat_body encrypted)
      github
      with_old
      start
      (GitHub.rotate (env_of 201 pat_body encrypted) github with_old start)
github_rotate-Deletes_example =
    github_rotate-Deletes (env_of 201 pat_body encrypted) github with_old start

sanitize_for_log-IsPrintable_example :
    IsPrintable (sanitize_for_log "a\nb") × (Text.length (sanitize_for_log "a\nb") ≤ 257)
sanitize_for_log-IsPrintable_example = sanitize_for_log-IsPrintable "a\nb"

abbrev idp : Env
idp = env_of 200 access_body encrypted

-- Two calls at the same time, with nothing in the cache: both look, then each has the lock.
abbrev both_looking : Crowd
both_looking = record { world = start; callers = looking ∷ looking ∷ [] }

abbrev first_looked : Crowd
first_looked = record {
  world = (cached idp start).1;
  callers = looked idp auth0 (cached idp start).0 ∷ looking ∷ [];
}

abbrev both_looked : Crowd
both_looked =
    let w = first_looked.world in
    record { world = (cached idp w).1; callers = waiting ∷ looked idp auth0 (cached idp w).0 ∷ [] }

abbrev first_done : Crowd
first_done =
    let w = both_looked.world in
    record {
      world = (locked_token idp auth0 w).1;
      callers = done (locked_token idp auth0 w).0 ∷ waiting ∷ [];
    }

abbrev both_done : Crowd
both_done =
    let w = first_done.world in
    record {
      world = (locked_token idp auth0 w).1;
      callers =
          done (locked_token idp auth0 both_looked.world).0
          ∷ done (locked_token idp auth0 w).0
          ∷ [];
    }

abbrev both_run : Run idp auth0 both_looking both_done
unfolding cached
both_run =
    later
      (later
        (later (later begin (look [] (looking ∷ []) refl refl)) (look (waiting ∷ []) [] refl refl))
        (lock [] (waiting ∷ []) refl refl))
      (lock (done (locked_token idp auth0 both_looked.world).0 ∷ []) [] refl refl)

idp-Lasting : Lasting idp auth0
unfolding Auth0.fetch_token
idp-Lasting w tok e = ((λ f. cc), λ es. refl)

single_flight_example :
    sent_requests both_done.world + failures both_looking.callers
    ≤ sent_requests both_looking.world + 1 + failures both_done.callers
single_flight_example = single_flight idp auth0 idp-Lasting both_looking both_done both_run
