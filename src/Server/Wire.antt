-- ===== src/Server/Wire.antt =====
-- cred-rotation-api: what `jsonOK` of server/handlers.go writes for the answer to a rotation, by the
-- tags of its type in adapter/adapter.go. `time.Time` marshals as RFC 3339 with nanoseconds.
use vault_secrets_broker.Prelude.{String}
use vault_secrets_broker.Json.{Json, end, field, str, obj}
use vault_secrets_broker.Net.{Env}
use vault_secrets_broker.Adapter.{RotateResponse}

abbrev pub rfc3339_nano : String
rfc3339_nano = "2006-01-02T15:04:05.999999999Z07:00"

unfoldable pub encode_rotated : Env → RotateResponse → Json
encode_rotated env r = obj (
    field "provider_id" (str r.provider_id) (
      field "encrypted_value" (str r.encrypted_value)
        (field "rotated_at" (str (env.format rfc3339_nano r.rotated_at)) end)))
