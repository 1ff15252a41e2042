-- ===== src/Tests/Chain.antt =====
-- The whole chain of the server's handlers on small examples.
use mathlib.Core.List.{Memᴰ}
use vault_secrets_broker.Prelude.{
  String, ◌≡◌, refl, Option, none, some, List, [], ◌∷◌, lookup, string_eq,
}
use vault_secrets_broker.Exec.{pure}
use vault_secrets_broker.Net.{Env, start}
use vault_secrets_broker.Server.{Request, plain}
use vault_secrets_broker.Server.Authz.{Handler, Allowlist, client_cert_cn, key_of}
use vault_secrets_broker.Server.Routes.{Server}
use vault_secrets_broker.Server.Chain.{serve}
use vault_secrets_broker.Server.Chain.Barred.{credential_keys, Quiet, Refused, serve-barred}
use vault_secrets_broker.Vault.Certificates.{require_and_verify_client_cert, version_tls13}
use vault_secrets_broker.Tests.{env_of, encrypted, key_body, plain64}

abbrev not_found : Handler
not_found r = pure (record { code = 404; answer = plain "404 page not found" })

abbrev only_ci : Allowlist
only_ci =
    ("POST /v1/credentials/rotate", "ci" ∷ [])
    ∷ ("POST /v1/credentials/revoke", "ci" ∷ [])
    ∷ ("GET /v1/credentials/status", "ci" ∷ [])
    ∷ ("HEAD /v1/credentials/status", "ci" ∷ [])
    ∷ []

abbrev guarded : Server
guarded = record {
  addr = ":8443";
  tls_config = record {
    certificate = ("cert", "key");
    client_cas = "ca";
    client_auth = require_and_verify_client_cert;
    min_version = version_tls13;
  };
  handlers = record { registry = record { adapters = [] }; transit_key_name = "creds" };
  limit = 2;
  allowlist = only_ci;
}

abbrev head_status : Request
head_status = record {
  method = "HEAD";
  path = "/v1/credentials/status";
  query = [];
  body = none;
  cert_cn = some "mallory";
}

mallory_absent : ¬ Memᴰ {A = String} "mallory" ("ci" ∷ [])
mallory_absent (Memᴰ.head e) = cc
mallory_absent (Memᴰ.tail m) = elim m [ ]

abbrev only_names_ci :
    (allowed : List String) × (◌≡◌ {A = Option (List String)} (some ("ci" ∷ [])) (some allowed))
    × ¬ Memᴰ "mallory" allowed
only_names_ci = ("ci" ∷ [], refl, mallory_absent)

abbrev env : Env
env = env_of 201 key_body encrypted

serve-barred_example :
    Quiet start (serve env plain64 not_found guarded 1 head_status start)
    × (Memᴰ (key_of head_status) credential_keys
        → Refused head_status (serve env plain64 not_found guarded 1 head_status start))
unfolding lookup client_cert_cn
serve-barred_example =
    serve-barred env plain64 not_found guarded 1 head_status start (λ q v. (refl, refl))
      (only_names_ci, (only_names_ci, (only_names_ci, (only_names_ci, tt))))
