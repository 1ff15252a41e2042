-- ===== src/Tests/EndToEnd.antt =====
-- The REST engine, the API with a PagerDuty adapter, and a Vault whose encryption keeps texts.
use vault_secrets_broker.Prelude.{
  true, ◌≡◌, refl, none, some, [], ◌∷◌, arith, ◌==◌, string_eq, if◌then◌else◌, lookup_nonempty,
}
use vault_secrets_broker.Prelude.Int.{pos}
use vault_secrets_broker.Prelude.Text
use vault_secrets_broker.Json.{Json, Fields, obj, field, str, end}
use vault_secrets_broker.Exec.{ok}
use vault_secrets_broker.Net.{
  Env, start, response, VaultReply, secret, nil_secret, storage_read, record_event,
}
use vault_secrets_broker.Adapter.{Adapter}
use vault_secrets_broker.Adapter.Registry
use vault_secrets_broker.Adapter.Shared.{random_hex}
use vault_secrets_broker.PagerDuty
use vault_secrets_broker.PagerDuty.{PagerDuty}
use vault_secrets_broker.Vault.{lookup_field, transit_encrypt}
use vault_secrets_broker.Vault.Transit.{Honest, Decodes}
use vault_secrets_broker.Server.{Request, Response, rotated}
use vault_secrets_broker.Server.Wire.{encode_rotated}
use vault_secrets_broker.Server.Handlers
use vault_secrets_broker.Server.Handlers.{Handlers}
use vault_secrets_broker.Server.Handlers.Laws.{Success}
use vault_secrets_broker.Engine.{Storage, data_response, text_of}
use vault_secrets_broker.Vault.Certificates.{Tls}
use vault_secrets_broker.RestEngine.{connection, get_config, build_http_client}
use vault_secrets_broker.RestEngine.Credentials.{rotate_creds}
use vault_secrets_broker.RestEngine.EndToEnd.{rotate_creds-rotate}
use vault_secrets_broker.Tests.{env_of, encrypted, plain64, key_body}
use vault_secrets_broker.Tests.Engines.{given_fields, no_lease, sdk}

abbrev echo : Fields → VaultReply
echo (field k (str x) end) =
    secret
      (record { content = field "ciphertext" (str x) (field "plaintext" (str x) end); auth = none })
echo _ = nil_secret

-- What the API answered, and what PagerDuty does.
abbrev wire : Json
wire = obj (
    field "provider_id" (str "svc")
      (field "encrypted_value" (str "pd-1") (field "rotated_at" (str "20240101T000000Z") end)))

abbrev env : Env
env = record (env_of 201 key_body encrypted) {
  vault_write = λ t token path d. echo d;
  respond = λ t r.
      if r.url == "https://api/v1/credentials/rotate"
      then response (record { status = 200; body = some wire })
      else response (record { status = 201; body = some key_body });
  parse_time = λ s. some (pos 5);
}

honest : Honest env plain64 "creds"
unfolding lookup_field
honest t u token token' x ct s e f = (
  record { content = field "ciphertext" (str ct) (field "plaintext" (str ct) end); auth = none },
  refl,
  ground arith,
)

decodes : Decodes env plain64 "creds"
decodes s = refl

abbrev pagerduty : Adapter
unfolding PagerDuty.adapter
pagerduty =
    PagerDuty.adapter env (record { base_url = "https://pd"; api_key = "admin"; email = "a@b" })

abbrev api : Handlers
api = record {
  registry = record { adapters = ("pagerduty", pagerduty) ∷ [] };
  transit_key_name = "creds";
}

abbrev rotate_post : Request
rotate_post = record {
  method = "POST";
  path = "/v1/credentials/rotate";
  query = [];
  body = some (obj (field "provider" (str "pagerduty") (field "provider_id" (str "svc") end)));
  cert_cn = some "engine";
}

abbrev answered : Response
answered = record {
  code = 200;
  answer = rotated (record { provider_id = "svc"; encrypted_value = "pd-1"; rotated_at = pos 5 });
}

abbrev rotation : Success env plain64 api rotate_post start answered
unfolding Handlers.rotate Handlers.rotate_with Handlers.encrypt_and_answer PagerDuty.rotate
    PagerDuty.rotate_held PagerDuty.create_key random_hex transit_encrypt lookup_nonempty
    Handlers.decode_rotate Registry.get pagerduty
rotation = record {
  req = record { provider = "pagerduty"; provider_id = "svc"; meta = [] };
  decoded = refl;
  adapter = pagerduty;
  found = refl;
  result = record {
    provider_id = "svc";
    credential_id = "p1";
    credential = "pd-1";
    rotated_at = pos 5;
  };
  after = (pagerduty.rotate (record { provider_id = "svc"; meta = [] }) start).1;
  rotation = refl;
  ciphertext = "pd-1";
  encrypted = refl;
  answered = refl;
}

abbrev entry : Fields
entry = connection "https://api/" "creds" "" "" ""

abbrev fixed : Storage
fixed = record {
  get = λ es key. ok (some (some (obj entry)));
  put = λ es key doc. none;
  entry_error = λ key fs. none;
}

abbrev tls : Tls
tls = record { append_certs = λ s. true; key_pair = λ c k. none }

rotate_creds-rotate_example :
    (rotate_creds env plain64 sdk tls fixed no_lease given_fields start).0
    ≡ ok (
        data_response (
          field "credential" (str "pd-1") (
            field "provider"
              (str "pagerduty")
              (field "provider_id" (str "svc") (field "rotated_at" (str "20240101T000000Z") end)))))
unfolding rotation get_config text_of build_http_client Text.trim_slashes encode_rotated
rotate_creds-rotate_example =
    rotate_creds-rotate env plain64 api rotate_post start answered rotation fixed tls sdk honest
      decodes refl entry "pagerduty" "svc" "s.plugin"
      (record { root_ca = none; certificate = none }) no_lease given_fields start
      (record_event (storage_read "config/connection") start) refl refl refl refl refl refl refl
      (λ es. refl) (λ e. cc)
