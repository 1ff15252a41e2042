-- ===== src/Tests/Services.antt =====
-- The server and the Vault client on small examples.
use mathlib.Core.List.{Memᴰ}
use vault_secrets_broker.Prelude.{
  String, ◌≡◌, refl, lookup_nonempty, none, some, [], ◌∷◌, lookup, string_eq,
}
use vault_secrets_broker.Json.{obj, field, str, end}
use vault_secrets_broker.Exec.{msg, named, ok, err}
use vault_secrets_broker.Net.{Env, start, logged, record_event}
use vault_secrets_broker.Adapter.{Adapter, Rotated}
use vault_secrets_broker.Adapter.Registry
use vault_secrets_broker.Adapter.Registry.{Registry}
use vault_secrets_broker.Adapter.Shared.{random_hex}
use vault_secrets_broker.PagerDuty
use vault_secrets_broker.PagerDuty.{PagerDuty}
use vault_secrets_broker.Vault.{transit_encrypt}
use vault_secrets_broker.Server.{Request, Response, problem_with, rotated}
use vault_secrets_broker.Server.Handlers
use vault_secrets_broker.Server.Handlers.{Handlers}
use vault_secrets_broker.Server.Handlers.Laws.{
  Success, rotate-Success, encrypt_and_answer_opaque, logs,
}
use vault_secrets_broker.Server.Authz.{Allowlist, cert_authz, client_cert_cn, forbidden}
use vault_secrets_broker.Server.Authz.Laws.{cert_authz_entry, cert_authz_open}
use vault_secrets_broker.Server.Routes.{mux}
use vault_secrets_broker.Server.Routes.Laws.{head_bypasses_authz}
use vault_secrets_broker.Server.Limiter.{
  Gate, idle, rejecting, serving, admit, arrive, Reach, new, later,
}
use vault_secrets_broker.Server.Limiter.Safety.{Inv, Reach-Inv}
use vault_secrets_broker.Prelude.Int.{pos}
use vault_secrets_broker.Tests.{env_of, encrypted, key_body, plain64}

abbrev env : Env
env = env_of 201 key_body encrypted

abbrev pagerduty : Adapter
unfolding PagerDuty.adapter
pagerduty =
    PagerDuty.adapter env (record { base_url = "https://pd"; api_key = "admin"; email = "a@b" })

abbrev handlers : Handlers
handlers = record {
  registry = record { adapters = ("pagerduty", pagerduty) ∷ [] };
  transit_key_name = "creds";
}

abbrev rotate_post : Request
rotate_post = record {
  method = "POST";
  path = "/v1/credentials/rotate";
  query = [];
  body = some (obj (field "provider" (str "pagerduty") (field "provider_id" (str "svc") end)));
  cert_cn = some "client";
}

abbrev success : Response
success = record {
  code = 200;
  answer =
      rotated (record { provider_id = "svc"; encrypted_value = "vault:v1:c"; rotated_at = pos 5 });
}

rotate-Success_example : Success env plain64 handlers rotate_post start success
unfolding Handlers.rotate Handlers.rotate_with Handlers.encrypt_and_answer PagerDuty.rotate
    PagerDuty.rotate_held PagerDuty.create_key random_hex transit_encrypt lookup_nonempty
    Handlers.decode_rotate Registry.get pagerduty
rotate-Success_example =
    rotate-Success env plain64 handlers rotate_post start
      (Handlers.rotate env plain64 handlers rotate_post start).1 success refl refl

abbrev unknown_post : Request
unknown_post = record rotate_post {
  body = some (obj (field "provider" (str "aws") (field "provider_id" (str "svc") end)));
}

abbrev not_found : Response
not_found = record {
  code = 404;
  answer = problem_with "" (named "no adapter registered for provider" "aws");
}

abbrev first_rotation : Rotated
first_rotation = record {
  provider_id = "svc";
  credential_id = "p1";
  credential = "pd-1";
  rotated_at = pos 5;
}

abbrev second_rotation : Rotated
second_rotation = record {
  provider_id = "svc";
  credential_id = "p2";
  credential = "pd-2";
  rotated_at = pos 5;
}

encrypt_and_answer_opaque_example :
    ((Handlers.encrypt_and_answer env plain64 handlers "pagerduty" first_rotation start).0
      ≡ (Handlers.encrypt_and_answer env plain64 handlers "pagerduty" second_rotation start).0)
    × (logs
          (Handlers.encrypt_and_answer env plain64 handlers "pagerduty" first_rotation
            start).1.trace
        ≡ logs
            (Handlers.encrypt_and_answer env plain64 handlers "pagerduty" second_rotation
              start).1.trace)
unfolding transit_encrypt
encrypt_and_answer_opaque_example =
    encrypt_and_answer_opaque env plain64 handlers "pagerduty" first_rotation second_rotation start
      refl refl refl

-- Two of three requests are let in.
abbrev two_in : Gate
two_in = record { in_flight = 3; requests = serving ∷ serving ∷ rejecting ∷ [] }

abbrev two_in-Reach : Reach 2 3 two_in
unfolding admit
two_in-Reach =
    later
      (later (later new (arrive [] (idle ∷ idle ∷ []) refl refl))
        (arrive (serving ∷ []) (idle ∷ []) refl refl))
      (arrive (serving ∷ serving ∷ []) [] refl refl)

Reach-Inv_example : Inv 2 two_in
Reach-Inv_example = Reach-Inv {limit = 2} {n = 3} two_in-Reach

abbrev allowlist : Allowlist
allowlist =
    ("GET /v1/credentials/status", "ops" ∷ [])
    ∷ ("POST /v1/credentials/rotate", "ci" ∷ "client" ∷ [])
    ∷ []

cert_authz_entry_example :
    (Memᴰ {A = String} "client" ("ci" ∷ "client" ∷ [])
      → cert_authz allowlist Handlers.health rotate_post start ≡ Handlers.health rotate_post start)
    × (¬ Memᴰ {A = String} "client" ("ci" ∷ "client" ∷ [])
        → cert_authz allowlist Handlers.health rotate_post start ≡ (
          ok forbidden,
          record_event
              (logged "WARN" "cert authz denied"
                (("path", "/v1/credentials/rotate") ∷ ("cert_cn", "client") ∷ [])
                none)
              start,
        ))
unfolding lookup client_cert_cn
cert_authz_entry_example =
    cert_authz_entry allowlist Handlers.health rotate_post ("ci" ∷ "client" ∷ []) start refl

abbrev head_status : Request
head_status = record rotate_post { method = "HEAD"; path = "/v1/credentials/status" }

cert_authz_open_example :
    cert_authz allowlist Handlers.health head_status start ≡ Handlers.health head_status start
unfolding lookup
cert_authz_open_example = cert_authz_open allowlist Handlers.health head_status start refl

head_bypasses_authz_example :
    cert_authz allowlist (mux env plain64 Handlers.health handlers) head_status start
    ≡ Handlers.status env plain64 handlers head_status start
unfolding lookup
head_bypasses_authz_example =
    head_bypasses_authz env plain64 Handlers.health handlers allowlist head_status start refl refl
      refl

abbrev empty_registry : Registry
empty_registry = record { adapters = [] }

-- An adapter whose clean-up never ends in time.
abbrev slow : Adapter
slow = record {
  name = "slow";
  rotate = λ req w. (err (msg "slow"), w);
  revoke = λ req w. (err (msg "slow"), w);
  status = λ id w. (err (msg "slow"), w);
  drain = some (λ w. (err (msg "context deadline exceeded"), w));
}

abbrev slow_registry : Registry
slow_registry = record { adapters = ("slow", slow) ∷ [] }
