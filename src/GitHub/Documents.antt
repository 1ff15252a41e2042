-- ===== src/GitHub/Documents.antt =====
-- What cred-rotation-api/adapter/github/github.go writes for a new token, and reads back.
use vault_secrets_broker.Prelude.{
  String, Option, none, some, List, [], ◌∷◌, ◌==◌, nat_eq, string_eq, if◌then◌else◌, lookup,
  lookup_nonempty, insert, ◌>>=?◌,
}
use vault_secrets_broker.Prelude.Text
use vault_secrets_broker.Prelude.Int.{ℤ, pos}
use vault_secrets_broker.Json.{
  Json, Items, nil, cons, Fields, end, field, null, str, arr, obj, Payload, unmarshal, string_field,
  read_field, read_string, read_int,
}

-- An object as a `map[string]string`.
string_map : Fields → Option (List (String × String))
unfolding insert
string_map end = some []
string_map (field k v fs) = string_map fs >>=? λ rest.
    read_string v "" >>=? λ s. some (elim (lookup k rest) [ none ↦ (k, s) ∷ rest | some _ ↦ rest ])

fields_of : List (String × String) → Fields
fields_of [] = end
fields_of ((k, v) ∷ m) = field k (str v) (fields_of m)

-- The value of "permissions", if the text reads as a `map[string]string`.
permissions : Payload → Option Json
unfolding string_map fields_of lookup
permissions (some (obj fs)) = string_map fs >>=? λ m. some (obj (fields_of m))
permissions (some null) = some null
permissions _ = none

-- The names of a comma-separated list.
repositories : List String → Items
unfolding Text.trim_space
repositories [] = nil
repositories (r ∷ rs) =
    let rest = repositories rs in
    let s = Text.trim_space r in if s == "" then rest else cons (str s) rest

abbrev with_permissions : Option Json → Fields → Fields
with_permissions none fs = fs
with_permissions (some p) fs = field "permissions" p fs

abbrev with_repositories : Items → Fields → Fields
with_repositories nil fs = fs
with_repositories (cons r rs) fs = field "repositories" (arr (cons r rs)) fs

abbrev at_most : Option String → (String → Option Json) → Option Json
at_most none f = none
at_most (some v) f = f v

unfoldable pub rotate_body :
    (parse_json : String → Payload) (name expires_at : String) → List (String × String) → Json
unfolding permissions repositories lookup_nonempty Text.split_commas
rotate_body parse_json name expires_at meta =
    let repos : Items = elim (lookup_nonempty "repositories" meta) [
      | none ↦ nil
      | some v ↦ repositories (Text.split_commas v)
    ] in
    let perms = at_most (lookup_nonempty "permissions" meta) (λ v. permissions (parse_json v)) in
    obj (
      field "expires_at" (str expires_at)
        (field "name" (str name) (with_permissions perms (with_repositories repos end))))

-- `created`: the id and the token
unfoldable pub decode_created : Payload → Option (ℤ × String)
unfolding read_field
decode_created body =
    unmarshal (pos 0, "")
      (λ fs. read_field read_int "id" fs (pos 0) >>=? λ id.
        string_field "token" fs >>=? λ token. some (id, token))
      body
