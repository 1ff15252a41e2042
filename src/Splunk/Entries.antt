-- ===== src/Splunk/Entries.antt =====
-- The answers that cred-rotation-api/adapter/splunk/splunk.go reads.
use vault_secrets_broker.Prelude.{
  String, Bool, false, not, Option, none, some, List, [], ◌∷◌, nat_eq, string_eq, ◌>>=?◌,
}
use vault_secrets_broker.Json.{
  Json, Items, nil, cons, null, arr, obj, Payload, unmarshal, read_field, read_bool, read_string,
}

-- `splunkContent` and `splunkEntry`
pub record Content : Type 0 where
  pub disabled : Bool
  pub index : String
  pub sourcetype : String
  pub token : String

pub record Entry : Type 0 where
  pub name : String
  pub content : Content

abbrev no_content : Content
no_content = record { disabled = false; index = ""; sourcetype = ""; token = "" }

abbrev no_entry : Entry
no_entry = record { name = ""; content = no_content }

read_content : Json → Content → Option Content
unfolding read_field
read_content (obj fs) cur = read_field read_bool "disabled" fs cur.disabled >>=? λ disabled.
    read_field read_string "index" fs cur.index >>=? λ index.
    read_field read_string "sourcetype" fs cur.sourcetype >>=? λ sourcetype.
    read_field read_string "token" fs cur.token >>=? λ token.
    some (record { disabled = disabled; index = index; sourcetype = sourcetype; token = token })
read_content null cur = some cur
read_content _ cur = none

read_entry : Json → Option Entry
unfolding read_field read_content
read_entry (obj fs) = read_field read_string "name" fs "" >>=? λ name.
    read_field read_content "content" fs no_content >>=? λ content.
    some (record { name = name; content = content })
read_entry null = some no_entry
read_entry _ = none

read_items : Items → Option (List Entry)
unfolding read_entry
read_items nil = some []
read_items (cons j js) = elim (read_entry j) [
  | none ↦ none
  | some e ↦ elim (read_items js) [ none ↦ none | some es ↦ some (e ∷ es) ]
]

abbrev read_entries : Json → List Entry → Option (List Entry)
read_entries null cur = some cur
read_entries (arr js) cur = read_items js
read_entries _ cur = none

-- `splunkResponse`, as json.Unmarshal reads it: the list of its entries
unfoldable pub decode_entries : Payload → Option (List Entry)
unfolding read_field read_items
decode_entries body = unmarshal [] (λ fs. read_field read_entries "entry" fs []) body

abbrev pub first_token : List Entry → String
first_token [] = ""
first_token (e ∷ es) = e.content.token

abbrev pub first_enabled : List Entry → Bool
first_enabled [] = false
first_enabled (e ∷ es) = not e.content.disabled
