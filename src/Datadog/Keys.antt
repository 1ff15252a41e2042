-- ===== src/Datadog/Keys.antt =====
-- The answers that cred-rotation-api/adapter/datadog/datadog.go reads, and the list of scopes that
-- it writes.
use vault_secrets_broker.Prelude.{
  String, Option, none, some, List, [], ◌∷◌, ◌==◌, nat_eq, string_eq, if◌then◌else◌, ◌>>=?◌,
}
use vault_secrets_broker.Prelude.Text
use vault_secrets_broker.Json.{
  Json, Items, nil, cons, null, str, obj, Payload, unmarshal, read_field, read_string,
}

-- `ddAttributes` and `ddData`; `ddResponse` holds its data alone.
pub record Attributes : Type 0 where
  pub name : String
  pub key : String
  pub last4 : String

pub record KeyData : Type 0 where
  pub id : String
  pub type : String
  pub attributes : Attributes

abbrev no_attributes : Attributes
no_attributes = record { name = ""; key = ""; last4 = "" }

abbrev no_data : KeyData
no_data = record { id = ""; type = ""; attributes = no_attributes }

read_attributes : Json → Attributes → Option Attributes
unfolding read_field
read_attributes (obj fs) cur = read_field read_string "name" fs cur.name >>=? λ name.
    read_field read_string "key" fs cur.key >>=? λ key.
    read_field read_string "last4" fs cur.last4 >>=? λ last4.
    some (record { name = name; key = key; last4 = last4 })
read_attributes null cur = some cur
read_attributes _ cur = none

read_data : Json → KeyData → Option KeyData
unfolding read_field read_attributes
read_data (obj fs) cur = read_field read_string "id" fs cur.id >>=? λ id.
    read_field read_string "type" fs cur.type >>=? λ type.
    read_field read_attributes "attributes" fs cur.attributes >>=? λ attributes.
    some (record { id = id; type = type; attributes = attributes })
read_data null cur = some cur
read_data _ cur = none

-- `ddResponse`, as json.Unmarshal reads it
unfoldable pub decode_data : Payload → Option KeyData
unfolding read_field read_data
decode_data body = unmarshal no_data (λ fs. read_field read_data "data" fs no_data) body

-- the loop over the comma-separated scopes
unfoldable pub scopes_of : List String → Items
unfolding Text.trim_space
scopes_of [] = nil
scopes_of (s ∷ ss) =
    let rest = scopes_of ss in
    let sc = Text.trim_space s in if sc == "" then rest else cons (str sc) rest
