-- ===== src/AuthEngine/Declared.antt =====
-- The data of a lease against the fields that its type declares.
use vault_secrets_broker.Prelude.{
  String, ◌≡◌, refl, inl, inr, some, List, [], ◌∷◌, All, lookup, string_eq,
}
use vault_secrets_broker.Json.{Fields, end, field}
use vault_secrets_broker.Exec.{ok}
use vault_secrets_broker.Net.{World, Env}
use vault_secrets_broker.Vault.{Base64, as_string}
use vault_secrets_broker.Engine.{
  Storage, FieldData, Request, Sdk, FieldSchema, FrameworkSecret, secret_response,
}
use vault_secrets_broker.AuthEngine.{text_of}
use vault_secrets_broker.AuthEngine.Leases.{issue, rotate_creds}
use vault_secrets_broker.AuthEngine.Paths.{secret_auth0_creds}
use vault_secrets_broker.AuthEngine.Issued.{
  issue-response, for_application-response, rotate_application-response,
}

unfoldable pub field_names : Fields → List String
field_names end = []
field_names (field k v fs) = k ∷ field_names fs

-- A secret of this type whose data has declared fields alone.
unfoldable pub Conforms : FrameworkSecret → (ty : String) → Fields → Type 0
Conforms secret ty content =
    (ty ≡ secret.secret_type)
    × All (λ name. (s : FieldSchema) × (lookup name secret.fields ≡ some s)) (field_names content)

module _ (env : Env) (storage : Storage) (base64 : Base64) (sdk : Sdk) where
  issue-Conforms :
      (key id s ty : String) (content internal : Fields) (w : World)
      → (issue env base64 sdk key id s w).0 ≡ ok (secret_response ty content internal)
      → Conforms (secret_auth0_creds env storage base64 sdk) ty content
  unfolding Conforms field_names secret_auth0_creds lookup
  issue-Conforms key id s ty content internal w e =
      let (type_is, internal_is, data_is) =
        issue-response env base64 sdk key id s ty content internal w e in
      elim data_is [
        | inl (no_key, f) ↦ rw (f, type_is) (refl, ((_, refl), ((_, refl), ((_, refl), tt))))
        | inr (with_key, ct, f, g) ↦
            rw (f, type_is) (refl, ((_, refl), ((_, refl), ((_, refl), ((_, refl), tt)))))
      ]

  -- A lease that is given has the type that the backend registers, and its data has no field but
  -- those that this type declares.
  pub rotate_creds-Conforms :
      (req : Request) (d : FieldData) (ty : String) (content internal : Fields) (w : World)
      → (rotate_creds env storage base64 sdk req d w).0 ≡ ok (secret_response ty content internal)
      → Conforms (secret_auth0_creds env storage base64 sdk) ty content
  unfolding rotate_creds
  rotate_creds-Conforms req d ty content internal w e =
      let (cfg, found, v, given, there, e1) =
        for_application-response env base64 sdk storage d _ ty content internal w e in
      let (s, rotated, e2) =
        rotate_application-response env base64 sdk storage cfg (as_string v) ty content internal _
          e1 in
      issue-Conforms (text_of "transit_key" cfg) (as_string v) s ty content internal _ e2
