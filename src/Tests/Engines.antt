-- ===== src/Tests/Engines.antt =====
-- The secrets engines on small examples.
use mathlib.Core.List.{Memᴰ}
use vault_secrets_broker.Prelude.{
  String, true, ◌⊎◌, ◌≡◌, refl, ◌≢◌, ◌↔◌, Option, none, some, List, [], ◌∷◌, arith, lookup,
  string_eq,
}
use vault_secrets_broker.Prelude.Int.{pos}
use vault_secrets_broker.Json.{Json, Fields, obj, field, str, num, end, read_field}
use vault_secrets_broker.Exec.{msg, ok, pure, ◌>>=◌}
use vault_secrets_broker.Net.{Env, start, World, stored, clock_read, record_event}
use vault_secrets_broker.Vault.{lookup_field, as_string}
use vault_secrets_broker.Engine.{
  rfc3339, Storage, FieldData, Request, Sdk, nil_response, data_response, text_of, get_string,
}
use vault_secrets_broker.Engine.Stored.{last_stored, Faithful}
use vault_secrets_broker.AuthEngine.{
  config_key, connection, required, get_config, store_connection, write_config, read_config,
}
use vault_secrets_broker.AuthEngine.Config.{read_config-write_config, given}
use vault_secrets_broker.Tests.{env_of, encrypted, plain64, rotate_request}
use vault_secrets_broker.Engine.{handlers, path_handlers, path_callbacks, lease_handlers}
use vault_secrets_broker.Auth0
use vault_secrets_broker.Auth0.{cached, decode_token}
use vault_secrets_broker.AuthEngine.{client_of}
use vault_secrets_broker.AuthEngine.Client.{
  Auth0Client, new_auth0_client, fetch_token, management_token, rotate_secret,
}
use vault_secrets_broker.AuthEngine.Equivalence.{
  adapter_of, textless, stamped, rotate-rotate_secret,
}
use vault_secrets_broker.AuthEngine.Root.{rotate_root}
use vault_secrets_broker.AuthEngine.Leases.{
  secret_type, transit_encrypt, issue, for_application, rotate_application, rotate_creds,
  revoke_creds,
}
use vault_secrets_broker.AuthEngine.Config.{Complete}
use vault_secrets_broker.AuthEngine.Declared.{Conforms, rotate_creds-Conforms}
use vault_secrets_broker.AuthEngine.Paths.{
  secret_auth0_creds, backend, paths, path_config, path_rotate_root,
}
use vault_secrets_broker.AuthEngine.Keeps.{config_of}
use vault_secrets_broker.AuthEngine.Moves.{Move, Extends, handlers-Moves}
use vault_secrets_broker.AuthEngine.Runs.{begin, call, Run-Complete}
use vault_secrets_broker.AuthEngine.Issued.{rotation, plain_data, encrypted_data}
use vault_secrets_broker.AuthEngine.Secrets.{
  Rotates, rotate_creds-encrypted, revoke_creds-rotate_creds, revoke_creds-eq-ok_iff,
}

-- A storage that keeps what it is given.
abbrev pub memory : Storage
unfolding last_stored
memory = record {
  get = λ es key. ok (last_stored key es);
  put = λ es key doc. none;
  entry_error = λ key fs. none;
}

pub memory-Faithful : Faithful memory
unfolding memory
memory-Faithful es key entry e = ground arith

abbrev pub sdk : Sdk
sdk = record {
  lease_extend = λ increment max req d. pure nil_response;
  new_client = λ es. ok "s.plugin";
}

abbrev values : List (String × String)
values =
    ("domain", "t.auth0.com")
    ∷ ("client_id", "m2m")
    ∷ ("client_secret", "s0")
    ∷ ("audience", "https://t.auth0.com/api/v2/")
    ∷ ("transit_key", "k")
    ∷ ("application_client_id", "app")
    ∷ ("api_url", "https://api")
    ∷ ("provider", "pagerduty")
    ∷ ("provider_id", "svc")
    ∷ []

abbrev pub value : String → Option Json
unfolding lookup
value name = elim (lookup name values) [ none ↦ none | some v ↦ some (str v) ]

abbrev pub given_fields : FieldData
given_fields = record { get_ok_err = λ name. ok (value name, true); get = λ name. ok (value name) }

abbrev pub no_lease : Request
no_lease = record { internal_data = none }

abbrev rotating_body : Json
rotating_body = obj (
    field "access_token" (str "mgmt")
      (field "expires_in" (num (pos 86400)) (field "client_secret" (str "s1") end)))

abbrev env : Env
env = env_of 200 rotating_body encrypted

read_config-write_config_example :
    (t : Option Json) × (given_fields.get "transit_key" ≡ ok t)
    × ((read_config memory no_lease given_fields
          (write_config memory no_lease given_fields start).1).0
        ≡ ok (
            data_response (
              field "domain" (str (given given_fields "domain")) (
                field "client_id" (str (given given_fields "client_id")) (
                  field "audience"
                    (str (given given_fields "audience"))
                    (field "transit_key" (str (as_string t)) end))))))
unfolding write_config required store_connection get_string value memory
read_config-write_config_example =
    read_config-write_config memory no_lease given_fields memory-Faithful start refl
      (some (some (obj (connection "t.auth0.com" "m2m" "s0" "https://t.auth0.com/api/v2/" "k"))))
      refl

abbrev entry : Fields
entry = connection "t.auth0.com" "m2m" "s0" "https://t.auth0.com/api/v2/" "k"

abbrev configured : World
configured = record start { trace = stored config_key (obj entry) ∷ [] }

-- Storages that always hold one entry, and take no other.
abbrev fixed : Fields → Storage
fixed cfg = record {
  get = λ es key. ok (some (some (obj cfg)));
  put = λ es key doc. some (msg "read-only");
  entry_error = λ key fs. none;
}

abbrev extends : Extends env memory plain64 sdk
extends increment max req d w = refl

handlers-Moves_example :
    Move
      (config_of configured)
      (config_of (rotate_root env memory no_lease given_fields configured).1)
unfolding handlers path_handlers path_callbacks lease_handlers backend paths path_config
    path_rotate_root
handlers-Moves_example =
    handlers-Moves env memory plain64 sdk memory-Faithful extends (rotate_root env memory)
      (Memᴰ.tail (Memᴰ.tail (Memᴰ.tail (Memᴰ.head refl)))) no_lease given_fields configured

Run-Complete_example : Complete entry
unfolding handlers path_handlers path_callbacks lease_handlers backend paths path_config last_stored
    memory write_config required store_connection get_string value get_config
Run-Complete_example =
    Run-Complete env memory plain64 sdk memory-Faithful extends start
      (write_config memory no_lease given_fields start).1 entry refl
      (call begin (write_config memory) (Memᴰ.head refl) no_lease given_fields) refl

abbrev client : Auth0Client
client = record {
  domain = "t.auth0.com";
  client_id = "m2m";
  client_secret = "s0";
  audience = "https://t.auth0.com/api/v2/";
  base_url = "https://t.auth0.com";
}

rotate-rotate_secret_example :
    textless (Auth0.rotate env (adapter_of client) rotate_request start)
    ≡ textless ((rotate_secret env client "svc" >>= stamped env client rotate_request) start)
rotate-rotate_secret_example = rotate-rotate_secret env client rotate_request start

abbrev lease_data : Fields
lease_data = field "application_client_id" (str "app") (
    field "rotated_at" (str "20240101T000000Z")
      (field "credential_ciphertext" (str "vault:v1:c") (field "transit_key" (str "k") end)))

abbrev internal : Fields
internal = field "application_client_id" (str "app") end

rotate_creds-encrypted_example :
    (cfg : Fields) × ((get_config (fixed entry) start).0 ≡ ok (some cfg))
    × (id : String) × (get_string given_fields "application_client_id" start ≡ (ok id, start))
    × (id ≢ "")
    × (◌≡◌ {A = String} "auth0_creds" secret_type)
    × (internal ≡ field "application_client_id" (str id) end)
    × (s : String) × (u : World) × (rotation env cfg id (get_config (fixed entry) start).1
        ≡ (ok s, u))
    × (((text_of "transit_key" cfg ≡ "")
          × (lease_data ≡ plain_data id (env.format rfc3339 (env.now u.trace)) s))
        ⊎ ((text_of "transit_key" cfg ≢ "")
            × (ct : String) × (lease_data
                ≡ encrypted_data id
                    (env.format rfc3339 (env.now u.trace))
                    ct
                    (text_of "transit_key" cfg))
            × ((transit_encrypt env plain64 sdk
                  (text_of "transit_key" cfg)
                  s
                  (record_event clock_read u)).0
                ≡ ok ct)))
unfolding rotate_creds for_application get_config value get_string rotate_application client_of
    new_auth0_client rotate_secret management_token cached fetch_token issue transit_encrypt text_of
    lookup_field decode_token read_field
rotate_creds-encrypted_example =
    rotate_creds-encrypted env plain64 sdk (fixed entry) no_lease given_fields "auth0_creds"
      lease_data internal start refl

abbrev lease : Request
lease = record { internal_data = some internal }

revoke_creds-rotate_creds_example :
    (id : String) × (get_string given_fields "application_client_id" start ≡ (ok id, start))
    × (((revoke_creds env (fixed entry) lease given_fields start).0 ≡ ok nil_response)
        ↔ Rotates env (fixed entry) id start)
    × ((cfg : Fields)
        → (get_config (fixed entry) start).0 ≡ ok (some cfg)
        → (revoke_creds env (fixed entry) lease given_fields start).1
          ≡ (rotation env cfg id (get_config (fixed entry) start).1).1)
unfolding rotate_creds for_application get_config value get_string rotate_application client_of
    new_auth0_client rotate_secret management_token cached fetch_token issue transit_encrypt text_of
    lookup_field decode_token read_field
revoke_creds-rotate_creds_example =
    revoke_creds-rotate_creds env plain64 sdk (fixed entry) no_lease given_fields "auth0_creds"
      lease_data internal start refl given_fields start

revoke_creds-eq-ok_iff_example :
    ((revoke_creds env (fixed entry) lease given_fields start).0 ≡ ok nil_response) ↔ (
      (held : Fields) × (lease.internal_data ≡ some held)
      × (text_of "application_client_id" held ≢ "")
      × (cfg : Fields) × ((get_config (fixed entry) start).0 ≡ ok (some cfg))
      × (s : String) × ((rotation env cfg
            (text_of "application_client_id" held)
            (get_config (fixed entry) start).1).0
          ≡ ok s))
revoke_creds-eq-ok_iff_example = revoke_creds-eq-ok_iff env (fixed entry) lease given_fields start

rotate_creds-Conforms_example :
    Conforms (secret_auth0_creds env (fixed entry) plain64 sdk) "auth0_creds" lease_data
unfolding rotate_creds for_application get_config value get_string rotate_application client_of
    new_auth0_client rotate_secret management_token cached fetch_token issue transit_encrypt text_of
    lookup_field decode_token read_field
rotate_creds-Conforms_example =
    rotate_creds-Conforms env (fixed entry) plain64 sdk no_lease given_fields "auth0_creds"
      lease_data internal start refl
