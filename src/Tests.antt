-- ===== src/Tests.antt =====
-- A small world for the examples: providers and a Vault that always answer the same.
mod Rotations
mod Clients
mod Secrets
mod Services
mod Start
mod Engines
mod EndToEnd
mod Faults
mod Chain
mod Lifecycle
mod Stopping
mod Provision
use vault_secrets_broker.Prelude.{
  ℕ, ◌*◌, ◌/◌, String, Bool, true, false, Option, none, some, List, [], ◌∷◌,
}
use vault_secrets_broker.Prelude.Int.{ℤ, pos, negsuc}
use vault_secrets_broker.Json.{
  Json, Fields, end, field, null, str, num, arr, obj, nil, cons, Payload,
}
use vault_secrets_broker.Exec.{ok}
use vault_secrets_broker.Net.{
  Env, HttpRequest, HttpResponse, Reply, response, VaultReply, Secret, secret, nil_secret,
}
use vault_secrets_broker.Adapter.{RotateRequest, RevokeRequest}
use vault_secrets_broker.Vault.{Base64}

-- A provider that answers every request with one code and one document, and a Vault that answers
-- every write with one secret.
abbrev pub env_of : ℕ → Json → VaultReply → Env
env_of code body reply = record {
  respond = λ t r. response (record { status = code; body = some body });
  bad_request = λ m u. none;
  vault_write = λ t token path d. reply;
  vault_read = λ t token path. nil_secret;
  now = λ t. pos 5;
  random = λ t n. ok (171 ∷ 205 ∷ []);
  acquire = λ t name. none;
  deadline = λ t name. 3;
  format = λ layout t. "20240101T000000Z";
  parse_time = λ s. none;
  parse_json = λ s. none;
}

abbrev pub encrypted : VaultReply
encrypted = secret (record { content = field "ciphertext" (str "vault:v1:c") end; auth = none })

-- A login's answer.
abbrev pub logged_in : VaultReply
logged_in = secret (record { content = end; auth = some "s.new" })

-- What each provider answers to a creation.
abbrev pub token_body : Json
token_body = obj (field "token" (str "squ_1") end)

abbrev pub entry_body : Json
entry_body = obj (
    field "entry"
      (arr (cons (obj (field "content" (obj (field "token" (str "hec-1") end)) end)) nil)) end)

abbrev pub data_body : Json
data_body = obj (
    field "data"
      (obj (field "id" (str "k1") (field "attributes" (obj (field "key" (str "dd-1") end)) end)))
      end)

abbrev pub key_body : Json
key_body = obj (field "api_key" (obj (field "id" (str "p1") (field "key" (str "pd-1") end))) end)

abbrev pub access_body : Json
access_body = obj (field "access_token" (str "mgmt") (field "expires_in" (num (pos 86400)) end))

abbrev pub rotate_request : RotateRequest
rotate_request = record {
  provider_id = "svc";
  meta = ("old_token_name", "svc-old") ∷ ("old_key_id", "k0") ∷ [];
}

abbrev pub revoke_request : RevokeRequest
revoke_request = record { provider_id = "svc"; credential_id = "k1" }

-- A codec that keeps texts as they are.
abbrev pub plain64 : Base64
plain64 = record { encode_to_string = λ s. s; decode_string = λ s. some s }

-- The product with 0.70, cut to an integer.
abbrev pub seven_tenths : ℤ → ℤ
seven_tenths (pos n) = pos (n * 7 / 10)
seven_tenths (negsuc n) = negsuc (n * 7 / 10)
