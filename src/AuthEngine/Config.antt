-- ===== src/AuthEngine/Config.antt =====
-- What is written to config/connection is what is read back.
use vault_secrets_broker.Prelude.{
  ◌∙◌, String, ◌≡◌, refl, ◌≢◌, inl, inr, some, arith, eq_iff, if◌then◌else◌, ◌==◌, string_eq,
  Option,
}
use vault_secrets_broker.Json.{Json, Fields, end, field, str, obj, Payload}
use vault_secrets_broker.Exec.{Result, ok, err, panic, Result-cases, Exec}
use vault_secrets_broker.Net.{World}
use vault_secrets_broker.Vault.{lookup_field, as_string}
use vault_secrets_broker.Engine.{
  value_of, text_of, get_string, Storage, FieldData, Request, Response, nil_response, data_response,
}
use vault_secrets_broker.Engine.Stored.{last_stored, Faithful}
use vault_secrets_broker.AuthEngine.{
  config_key, set_field, connection, required, get_config, store_connection, write_config,
  read_config,
}

pub lookup-set_field :
    (k key : String) (v : Json) (fs : Fields)
    → lookup_field key (set_field k v fs) ≡ (if k == key then some v else lookup_field key fs)
unfolding lookup_field set_field
lookup-set_field k key v end = refl
lookup-set_field k key v (field j old fs) =
    ground (arith, eq_iff j k, eq_iff k key, eq_iff j key, lookup-set_field k key v fs)

-- What GetOkErr gives for a field, as a text.
unfoldable pub given : FieldData → String → String
given d name = elim (d.get_ok_err name) [ ok g ↦ as_string g.0 | err e ↦ "" | panic p ↦ "" ]

-- The entry that the fields of a request make, with the Transit key beside them.
unfoldable pub entered : FieldData → (transit_key : String) → Fields
entered d transit_key =
    connection (given d "domain") (given d "client_id") (given d "client_secret")
      (given d "audience") transit_key

-- The four fields that a configuration must have.
unfoldable pub Complete : Fields → Type 0
Complete cfg =
    (text_of "domain" cfg ≢ "")
    × (text_of "client_id" cfg ≢ "")
    × (text_of "client_secret" cfg ≢ "")
    × (text_of "audience" cfg ≢ "")

module _ (storage : Storage) (req : Request) (d : FieldData) where
  -- What config/connection reads does not depend on the client secret: two stored
  -- configurations that differ in nothing else give the same answer.
  read_config-opaque :
      (w : World) (cfg : Fields) (x : String) (storage' : Storage)
      → storage.get w.trace config_key ≡ ok (some (some (obj cfg)))
      → storage'.get w.trace config_key
        ≡ ok (some (some (obj (set_field "client_secret" (str x) cfg))))
      → read_config storage req d w ≡ read_config storage' req d w
  unfolding read_config get_config value_of
  read_config-opaque w cfg x storage' e f = ground (
    arith,
    lookup-set_field "client_secret" "domain" (str x) cfg,
    lookup-set_field "client_secret" "client_id" (str x) cfg,
    lookup-set_field "client_secret" "audience" (str x) cfg,
    lookup-set_field "client_secret" "transit_key" (str x) cfg,
  )

  store_connection-ok :
      (fs : Fields) (w : World)
      → (store_connection storage fs w).0 ≡ ok nil_response
      → last_stored config_key (store_connection storage fs w).1.trace ≡ some (some (obj fs))
  unfolding store_connection last_stored
  store_connection-ok fs w e = ground arith

  required-nil :
      (name : String) (rest : String → Exec World Response) (w : World)
      (r : Result Response × World)
      → r ≡ required d name rest w
      → r.0 ≡ ok nil_response
      → (given d name ≢ "") × (r ≡ rest (given d name) w)
  unfolding required given
  required-nil name rest w r f e = ground (arith, eq_iff (given d name) "")

  -- A write that succeeds has stored the fields of the request, and each that is required is
  -- there.
  pub write_config-Complete :
      (w : World)
      → (write_config storage req d w).0 ≡ ok nil_response
      → (t : Option Json) × (d.get "transit_key" ≡ ok t)
        × (last_stored config_key (write_config storage req d w).1.trace
            ≡ some (some (obj (entered d (as_string t)))))
        × Complete (entered d (as_string t))
  unfolding write_config get_string Complete entered text_of lookup_field
  write_config-Complete w e =
      let (domain, e1) = required-nil "domain" _ w (write_config storage req d w) refl e in
      let (client_id, e2) = required-nil "client_id" _ w (write_config storage req d w) e1 e in
      let (client_secret, e3) =
        required-nil "client_secret" _ w (write_config storage req d w) e2 e in
      let (audience, e4) = required-nil "audience" _ w (write_config storage req d w) e3 e in
      elim (Result-cases (d.get "transit_key")) [
        | inl (t, f) ↦ (
          t,
          f,
          ground (arith, store_connection-ok (entered d (as_string t)) w),
          (domain, client_id, client_secret, audience),
        )
        | inr (inl (x, f)) ↦ absurd (ground arith)
        | inr (inr (x, f)) ↦ absurd (ground arith)
      ]

  -- After a write that succeeded, a read that the storage answers gives the domain, the client
  -- id, the audience and the Transit key that were written, and nothing else. Get gives what
  -- was put last.
  pub read_config-write_config :
      Faithful storage
      → (w : World) → (write_config storage req d w).0 ≡ ok nil_response
      → (entry : Option Payload)
      → storage.get (write_config storage req d w).1.trace config_key ≡ ok entry
      → (t : Option Json) × (d.get "transit_key" ≡ ok t)
        × ((read_config storage req d (write_config storage req d w).1).0
            ≡ ok (
                data_response (
                  field "domain" (str (given d "domain")) (
                    field "client_id" (str (given d "client_id")) (
                      field "audience"
                        (str (given d "audience"))
                        (field "transit_key" (str (as_string t)) end))))))
  unfolding read_config get_config value_of entered lookup_field
  read_config-write_config faithful w e entry f =
      let (t, g, kept, complete) = write_config-Complete w e in
      let same = faithful _ config_key entry f ∙ kept in (t, g, ground arith)
