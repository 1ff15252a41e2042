-- ===== src/Vault.antt =====
-- cred-rotation-api/vault/client.go: the client of Vault's API. The calls of the API itself
-- (github.com/hashicorp/vault/api) and of the SPIRE workload API are the environment's.
pub mod Login
pub mod Socket
pub mod Transit
pub mod Certificates
use Prim.Native.String.{◌++◌}
use vault_secrets_broker.Prelude.{
  String, Bool, true, false, not, ◌&&◌, Option, none, some, List, [], ◌∷◌, ◌==◌, string_eq,
  if◌then◌else◌,
}
use vault_secrets_broker.Json.{Json, Items, nil, cons, Fields, end, field, null, str, arr, obj}
use vault_secrets_broker.Exec.{
  Error, msg, named, wrap, about, Result, ok, err, panic, Exec, pure, fail, crash, lift, or_fail,
  require, ◌>>=◌, ◌>>◌, map_err, context,
}
use vault_secrets_broker.Net.{World, Env, Secret, write_logical, read_logical}

-- v, ok := m[key], in a Go map that was decoded from an object
unfoldable pub lookup_field : String → Fields → Option Json
lookup_field key end = none
lookup_field key (field k v fs) = if k == key then some v else lookup_field key fs

-- s, _ := v.(string)
abbrev pub as_string : Option Json → String
as_string (some (str s)) = s
as_string _ = ""

-- StringField
unfoldable pub string_field : Fields → String → Result String
unfolding lookup_field
string_field content key = elim (lookup_field key content) [
  | none ↦ err (named "field not present" key)
  | some (str s) ↦ ok s
  | some _ ↦ err (named "field is not a string" key)
]

-- MustStringField, and `s, _ := StringField(…)`
unfoldable pub must_string_field : Fields → String → String
unfolding string_field
must_string_field content key = elim (string_field content key) [ ok s ↦ s | _ ↦ "" ]

-- base64.StdEncoding, a codec of Go's standard library over the bytes of a text
pub record Base64 : Type 0 where
  pub encode_to_string : String → String
  pub decode_string : String → Option String

module _ (env : Env) (base64 : Base64) where
  -- `secret.Data` is read with no test that `secret` is there.
  unfoldable pub transit_encrypt : (key_name plaintext : String) → Exec World String
  unfolding lookup_field
  transit_encrypt key_name plaintext = do
    secret ← context (wrap "vault transit encrypt") (
        write_logical env ("transit/encrypt/" ++ key_name)
          (field "plaintext" (str (base64.encode_to_string plaintext)) end))
    elim secret [
      | none ↦ crash "invalid memory address or nil pointer dereference"
      | some s ↦ do
        let ct = as_string (lookup_field "ciphertext" s.content)
        require (not (ct == "")) (msg "vault transit encrypt: missing ciphertext in response")
        pure ct
    ]

  unfoldable pub transit_decrypt : (key_name ciphertext : String) → Exec World String
  unfolding lookup_field
  transit_decrypt key_name ciphertext = do
    secret ← context (wrap "vault transit decrypt") (
        write_logical env ("transit/decrypt/" ++ key_name)
          (field "ciphertext" (str ciphertext) end))
    elim secret [
      | none ↦ crash "invalid memory address or nil pointer dereference"
      | some s ↦ do
        let encoded = as_string (lookup_field "plaintext" s.content)
        require (not (encoded == "")) (msg "vault transit decrypt: missing plaintext in response")
        or_fail (wrap "vault transit decrypt: base64 decode" (msg "illegal base64 data"))
            (base64.decode_string encoded)
    ]

-- The data map of a KV v2 answer, under its own "data" if that is an object.
abbrev unwrap : Fields → Option Json → Fields
unwrap content (some (obj fs)) = fs
unwrap content _ = content

module _ (env : Env) where
  unfoldable pub kv_get : String → Exec World Fields
  unfolding lookup_field
  kv_get path = do
    secret ← context (wrap ("vault kv get " ++ path)) (read_logical env path)
    elim secret [
      | none ↦ fail (wrap ("vault kv get " ++ path) (msg "not found"))
      | some s ↦ pure (unwrap s.content (lookup_field "data" s.content))
    ]

  unfoldable pub kv_get_string : (path field : String) → Exec World String
  unfolding kv_get lookup_field
  kv_get_string path name = do
    content ← kv_get path
    elim (lookup_field name content) [
      | none ↦ fail (wrap ("vault kv get " ++ path) (named "field not found" name))
      | some (str s) ↦ pure s
      | some _ ↦ fail (wrap ("vault kv get " ++ path) (named "field is not a string" name))
    ]

pub record IssuedCert : Type 0 where
  pub certificate : String
  pub private_key : String
  pub ca_chain : String

-- the loop over "ca_chain"
join_chain : Items → String
join_chain nil = ""
join_chain (cons (str s) js) = s ++ "\n" ++ join_chain js
join_chain (cons j js) = join_chain js

abbrev chain_of : Option Json → String
unfolding join_chain
chain_of (some (arr js)) = join_chain js
chain_of _ = ""

alt_names_of : List String → Items
alt_names_of [] = nil
alt_names_of (n ∷ ns) = cons (str n) (alt_names_of ns)

abbrev with_alt_names : List String → Fields
unfolding alt_names_of
with_alt_names [] = end
with_alt_names (n ∷ ns) = field "alt_names" (arr (alt_names_of (n ∷ ns))) end

module _ (env : Env) where
  unfoldable pub issue_pki_cert :
      (role common_name : String) → (alt_names : List String) → Exec World IssuedCert
  unfolding lookup_field alt_names_of join_chain
  issue_pki_cert role common_name alt_names = do
    secret ← context (wrap ("vault pki issue " ++ role)) (
        write_logical env ("pki/issue/" ++ role) (
          field "common_name" (str common_name)
            (field "ttl" (str "24h") (with_alt_names alt_names))))
    elim secret [
      | none ↦ fail (wrap ("vault pki issue " ++ role) (msg "empty response"))
      | some s ↦ do
        let cert = as_string (lookup_field "certificate" s.content)
        let key = as_string (lookup_field "private_key" s.content)
        let joined = chain_of (lookup_field "ca_chain" s.content)
        let issuing = as_string (lookup_field "issuing_ca" s.content)
        require (not (cert == "") && not (key == "")) (
            wrap ("vault pki issue " ++ role)
              (msg "missing certificate or private_key in response"))
        pure (record {
          certificate = cert;
          private_key = key;
          ca_chain = if joined == "" then issuing else joined;
        })
    ]
