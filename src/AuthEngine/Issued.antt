-- ===== src/AuthEngine/Issued.antt =====
-- The leases of the Auth0 engine: what a rotation with a configuration is, and what it is issued as.
use Prim.Native.String.{◌++◌}
use vault_secrets_broker.Prelude.{
  Bool-cases, ◌==◌, string_eq, String, ◌≡◌, ◌≢◌, ◌⊎◌, inl, inr, Option, none, some, arith, eq_iff,
}
use vault_secrets_broker.Json.{Json, Fields, end, field, str}
use vault_secrets_broker.Exec.{ok, Exec, Result-cases}
use vault_secrets_broker.Net.{World, Env, no_cache, clock_read, record_event}
use vault_secrets_broker.Vault.{Base64, as_string}
use vault_secrets_broker.Engine.{
  text_of, get_string, Storage, FieldData, Response, Sdk, rfc3339, secret_response,
}
use vault_secrets_broker.AuthEngine.{client_of, get_config}
use vault_secrets_broker.AuthEngine.Client.{Auth0Client, new_auth0_client, rotate_secret}
use vault_secrets_broker.AuthEngine.Leases.{
  secret_type, transit_encrypt, issue, for_application, rotate_application,
}

-- The client that a configuration describes.
abbrev pub client_for : Fields → Auth0Client
client_for cfg = record {
  domain = text_of "domain" cfg;
  client_id = text_of "client_id" cfg;
  client_secret = text_of "client_secret" cfg;
  audience = text_of "audience" cfg;
  base_url = "https://" ++ text_of "domain" cfg;
}

-- The rotation of an application's secret with a new client of a configuration.
abbrev pub rotation : Env → Fields → (id : String) → Exec World String
rotation env cfg id w = rotate_secret env (client_for cfg) id (record w { cache = no_cache })

-- The data of a lease, without a Transit key and with one: what the two hold is these fields.
abbrev pub plain_data : (id at secret : String) → Fields
plain_data id at secret =
    field "application_client_id" (str id)
      (field "rotated_at" (str at) (field "credential" (str secret) end))

abbrev pub encrypted_data : (id at ct key : String) → Fields
encrypted_data id at ct key = field "application_client_id" (str id) (
    field "rotated_at" (str at)
      (field "credential_ciphertext" (str ct) (field "transit_key" (str key) end)))

module _ (env : Env) (base64 : Base64) (sdk : Sdk) where
  pub issue-response :
      (key id s ty : String) (content internal : Fields) (w : World)
      → (issue env base64 sdk key id s w).0 ≡ ok (secret_response ty content internal)
      → (ty ≡ secret_type)
        × (internal ≡ field "application_client_id" (str id) end)
        × (((key ≡ "") × (content ≡ plain_data id (env.format rfc3339 (env.now w.trace)) s))
            ⊎ ((key ≢ "")
                × (ct : String) × (content
                    ≡ encrypted_data id (env.format rfc3339 (env.now w.trace)) ct key)
                × ((transit_encrypt env base64 sdk key s (record_event clock_read w)).0 ≡ ok ct)))
  unfolding issue
  issue-response key id s ty content internal w e = elim (Bool-cases (key == "")) [
    | inl f ↦ ground (arith, eq_iff key "")
    | inr f ↦
        elim (Result-cases (transit_encrypt env base64 sdk key s (record_event clock_read w)).0) [
          | inl (ct, g) ↦
              (ground arith, ground arith, inr (ground (arith, eq_iff key ""), ct, ground arith, g))
          | inr x ↦ absurd (ground arith)
        ]
  ]

  module _ (storage : Storage) where
    pub rotate_application-response :
        (cfg : Fields) (id ty : String) (content internal : Fields) (w : World)
        → (rotate_application env storage base64 sdk cfg id w).0
          ≡ ok (secret_response ty content internal)
        → (s : String) × ((rotation env cfg id w).0 ≡ ok s)
          × ((issue env base64 sdk (text_of "transit_key" cfg) id s (rotation env cfg id w).1).0
              ≡ ok (secret_response ty content internal))
    unfolding rotate_application client_of new_auth0_client
    rotate_application-response cfg id ty content internal w e =
        elim (Result-cases (rotation env cfg id w).0) [
          | inl (s, g) ↦ (s, g, ground arith)
          | inr (inl (x, g)) ↦ absurd (ground arith)
          | inr (inr (x, g)) ↦ absurd (ground arith)
        ]

    pub for_application-response :
        (d : FieldData) (rest : Fields → String → Exec World Response)
        → (ty : String) (content internal : Fields) (w : World)
        → (for_application storage d rest w).0 ≡ ok (secret_response ty content internal)
        → (cfg : Fields) × ((get_config storage w).0 ≡ ok (some cfg))
          × (v : Option Json) × (d.get "application_client_id" ≡ ok v)
          × (as_string v ≢ "")
          × ((rest cfg (as_string v) (get_config storage w).1).0
              ≡ ok (secret_response ty content internal))
    unfolding for_application get_string
    for_application-response d rest ty content internal w e =
        elim (Result-cases (get_config storage w).0) [
          | inl (none, f) ↦ absurd (ground arith)
          | inl (some cfg, f) ↦ elim (Result-cases (d.get "application_client_id")) [
            | inl (v, g) ↦ elim (Bool-cases (as_string v == "")) [
              | inl h ↦ absurd (ground (arith))
              | inr h ↦ (cfg, f, v, g, ground (arith, eq_iff (as_string v) ""), ground arith)
            ]
            | inr (inl (x, g)) ↦ absurd (ground arith)
            | inr (inr (x, g)) ↦ absurd (ground arith)
          ]
          | inr (inl (x, f)) ↦ absurd (ground arith)
          | inr (inr (x, f)) ↦ absurd (ground arith)
        ]
