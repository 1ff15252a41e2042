-- ===== src/RestEngine/Config.antt =====
-- What the REST engine stores is what it reads back, but for the TLS material.
use vault_secrets_broker.Prelude.{
  String, ◌≡◌, ◌≢◌, Bool, true, Option, some, inl, inr, arith, eq_iff,
}
use vault_secrets_broker.Json.{Json, Payload, end, field, str, obj}
use vault_secrets_broker.Exec.{ok, Result-cases}
use vault_secrets_broker.Net.{World}
use vault_secrets_broker.Vault.{lookup_field, as_string}
use vault_secrets_broker.Engine.{
  Storage, FieldData, Request, nil_response, data_response, get_string, value_of,
}
use vault_secrets_broker.Engine.Stored.{last_stored, Faithful}
use vault_secrets_broker.RestEngine.{
  config_key, connection, get_config, store_connection, write_config, read_config,
}

module _ (storage : Storage) (req : Request) (d : FieldData) where
  -- the last Put of a write: an object with the URL and the key
  store_connection-ok :
      (url : String) (w : World)
      → (store_connection storage url d w).0 ≡ ok nil_response
      → (t ca cert key : Option Json) × (d.get "transit_key" ≡ ok t)
        × (last_stored config_key (store_connection storage url d w).1.trace
            ≡ some (
                some (
                  obj (
                    connection url (as_string t) (as_string ca) (as_string cert) (as_string key)))))
  unfolding store_connection last_stored get_string
  store_connection-ok url w e = elim (Result-cases (d.get "transit_key")) [
    | inl (t, f) ↦ elim (Result-cases (d.get "tls_ca_cert")) [
      | inl (ca, g) ↦ elim (Result-cases (d.get "tls_client_cert")) [
        | inl (cert, h) ↦ elim (Result-cases (d.get "tls_client_key")) [
          | inl (key, k) ↦ (t, ca, cert, key, f, ground arith)
          | inr x ↦ absurd (ground arith)
        ]
        | inr x ↦ absurd (ground arith)
      ]
      | inr x ↦ absurd (ground arith)
    ]
    | inr x ↦ absurd (ground arith)
  ]

  write_config-ok :
      (w : World)
      → (write_config storage req d w).0 ≡ ok nil_response
      → (v : Option Json) × (d.get_ok_err "api_url" ≡ ok (v, true))
        × (as_string v ≢ "")
        × (write_config storage req d w ≡ store_connection storage (as_string v) d w)
  unfolding write_config
  write_config-ok w e = elim (Result-cases (d.get_ok_err "api_url")) [
    | inl ((v, true), f) ↦
        (v, f, ground (arith, eq_iff (as_string v) ""), ground (arith, eq_iff (as_string v) ""))
    | inl ((v, Bool.false), f) ↦ absurd (ground arith)
    | inr x ↦ absurd (ground arith)
  ]

  -- A write succeeds only with an API URL; a later read that the storage answers gives that
  -- URL and the Transit key that were written, and none of the TLS material. Get gives what
  -- was put last.
  read_config-write_config_url :
      Faithful storage
      → (w : World) → (write_config storage req d w).0 ≡ ok nil_response
      → (entry : Option Payload)
      → storage.get (write_config storage req d w).1.trace config_key ≡ ok entry
      → (v t : Option Json) × (d.get_ok_err "api_url" ≡ ok (v, true))
        × (as_string v ≢ "")
        × (d.get "transit_key" ≡ ok t)
        × ((read_config storage req d (write_config storage req d w).1).0
            ≡ ok (
                data_response (
                  field "api_url"
                    (str (as_string v))
                    (field "transit_key" (str (as_string t)) end))))
  unfolding read_config get_config value_of lookup_field
  read_config-write_config_url faithful w e entry f =
      let (v, g, there, is) = write_config-ok w e in
      let (t, ca, cert, key, h, kept) = store_connection-ok (as_string v) w (ground arith) in
      let same = faithful _ config_key entry f in (v, t, g, there, h, ground arith)
