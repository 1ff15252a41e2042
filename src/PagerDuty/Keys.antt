-- ===== src/PagerDuty/Keys.antt =====
-- The answers that cred-rotation-api/adapter/pagerduty/pagerduty.go reads, and its search through a
-- list of keys.
use vault_secrets_broker.Prelude.{
  String, Bool, true, false, Option, none, some, List, [], ◌∷◌, ◌==◌, nat_eq, string_eq,
  if◌then◌else◌, ◌>>=?◌,
}
use vault_secrets_broker.Json.{
  Json, Items, nil, cons, null, arr, obj, Payload, unmarshal, read_field, read_string, read_bool,
}

-- `pdKey`
pub record PdKey : Type 0 where
  pub id : String
  pub name : String
  pub key : String

abbrev no_key : PdKey
no_key = record { id = ""; name = ""; key = "" }

read_key : Json → PdKey → Option PdKey
unfolding read_field
read_key (obj fs) cur = read_field read_string "id" fs cur.id >>=? λ id.
    read_field read_string "name" fs cur.name >>=? λ name.
    read_field read_string "key" fs cur.key >>=? λ key.
    some (record { id = id; name = name; key = key })
read_key null cur = some cur
read_key _ cur = none

read_items : Items → Option (List PdKey)
unfolding read_key
read_items nil = some []
read_items (cons j js) = elim (read_key j no_key) [
  | none ↦ none
  | some k ↦ elim (read_items js) [ none ↦ none | some ks ↦ some (k ∷ ks) ]
]

abbrev read_keys : Json → List PdKey → Option (List PdKey)
read_keys null cur = some cur
read_keys (arr js) cur = read_items js
read_keys _ cur = none

-- `pdKeyResponse`, as json.Unmarshal reads it
unfoldable pub decode_key : Payload → Option PdKey
unfolding read_field read_key
decode_key body = unmarshal no_key (λ fs. read_field read_key "api_key" fs no_key) body

-- `pdKeysListResponse`
pub record KeyList : Type 0 where
  pub api_keys : List PdKey
  pub more : Bool

unfoldable pub decode_list : Payload → Option KeyList
unfolding read_field read_items
decode_list body =
    unmarshal (record { api_keys = []; more = false })
      (λ fs. read_field read_keys "api_keys" fs [] >>=? λ api_keys.
        read_field read_bool "more" fs false >>=? λ more.
        some (record { api_keys = api_keys; more = more }))
      body

-- the loop of `keyExists`
unfoldable pub has_key : String → List PdKey → Bool
has_key id [] = false
has_key id (k ∷ ks) = if k.id == id then true else has_key id ks
