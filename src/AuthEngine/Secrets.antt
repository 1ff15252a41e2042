-- ===== src/AuthEngine/Secrets.antt =====
-- What becomes of the secrets that the Auth0 engine asks for.
use vault_secrets_broker.Prelude.{
  Option-cases, string_eq, String, ◌≡◌, ◌≢◌, ◌⊎◌, inl, inr, ◌↔◌, ap, refl, none, some, arith,
  eq_iff,
}
use vault_secrets_broker.Json.{Fields, end, field, str}
use vault_secrets_broker.Exec.{ok, Result-cases}
use vault_secrets_broker.Net.{World, Env, clock_read, record_event}
use vault_secrets_broker.Vault.{Base64, lookup_field, as_string}
use vault_secrets_broker.Engine.{
  text_of, get_string, Storage, FieldData, Request, Sdk, rfc3339, nil_response, secret_response,
}
use vault_secrets_broker.AuthEngine.{client_of, get_config}
use vault_secrets_broker.AuthEngine.Client.{new_auth0_client}
use vault_secrets_broker.AuthEngine.Leases.{
  secret_type, transit_encrypt, rotate_creds, revoke_application, revoke_creds,
}
use vault_secrets_broker.AuthEngine.Issued.{
  rotation, plain_data, encrypted_data, issue-response, rotate_application-response,
  for_application-response,
}

module _ (env : Env) (storage : Storage) where
  -- The configuration is found, and the provider gives the application a new secret.
  abbrev pub Rotates : (id : String) (w : World) → Type 0
  Rotates id w =
      (cfg : Fields) × ((get_config storage w).0 ≡ ok (some cfg))
      × (s : String) × ((rotation env cfg id (get_config storage w).1).0 ≡ ok s)

  revoke_application-ok :
      (id : String) (w : World)
      → (revoke_application env storage id w).0 ≡ ok nil_response
      → Rotates id w
  unfolding revoke_application client_of new_auth0_client
  revoke_application-ok id w e = elim (Result-cases (get_config storage w).0) [
    | inl (none, f) ↦ absurd (ground arith)
    | inl (some cfg, f) ↦ elim (Result-cases (rotation env cfg id (get_config storage w).1).0) [
      | inl (s, g) ↦ (cfg, f, s, g)
      | inr (inl (x, g)) ↦ absurd (ground arith)
      | inr (inr (x, g)) ↦ absurd (ground arith)
    ]
    | inr (inl (x, f)) ↦ absurd (ground arith)
    | inr (inr (x, f)) ↦ absurd (ground arith)
  ]

  -- A revocation succeeds just where the lease names an application, the configuration is
  -- found, and the provider gives that application a new secret.
  pub revoke_creds-eq-ok_iff :
      (req : Request) (d : FieldData) (w : World)
      → ((revoke_creds env storage req d w).0 ≡ ok nil_response) ↔ (
          (internal : Fields) × (req.internal_data ≡ some internal)
          × (text_of "application_client_id" internal ≢ "")
          × (cfg : Fields) × ((get_config storage w).0 ≡ ok (some cfg))
          × (s : String) × ((rotation env cfg
                (text_of "application_client_id" internal)
                (get_config storage w).1).0
              ≡ ok s))
  unfolding revoke_creds revoke_application client_of new_auth0_client
  revoke_creds-eq-ok_iff req d w = (
    λ e. elim (Option-cases req.internal_data) [
      | inl f ↦ absurd (ground arith)
      | inr (internal, f) ↦
          let id = text_of "application_client_id" internal in
          let (cfg, g, s, h) = revoke_application-ok id w (ground (arith, eq_iff id "")) in
          (internal, f, (λ x. ground (arith, eq_iff id "")), cfg, g, s, h)
    ],
    λ (internal, f, there, cfg, g, s, h).
        ground (arith, eq_iff (text_of "application_client_id" internal) ""),
  )

  -- The lease of an application.
  abbrev lease : (id : String) → Request
  lease id = record { internal_data = some (field "application_client_id" (str id) end) }

  revoke_creds-named :
      (id : String)
      → id ≢ ""
      → (d : FieldData) (w : World)
      → ((revoke_creds env storage (lease id) d w).0 ≡ ok nil_response) ↔ Rotates id w
  unfolding text_of lookup_field
  revoke_creds-named id there d w =
      let (to_rotates, from_rotates) = revoke_creds-eq-ok_iff (lease id) d w in
      (
        λ e. revoke_application-ok id w (unfold revoke_creds in ground (arith, eq_iff id "")),
        λ (cfg, f, s, g). from_rotates (_, refl, there, cfg, f, s, g),
      )

  revoke_creds-sends :
      (id : String)
      → id ≢ ""
      → (d : FieldData) (w : World) (cfg : Fields) → (get_config storage w).0 ≡ ok (some cfg)
      → (revoke_creds env storage (lease id) d w).1
        ≡ (rotation env cfg id (get_config storage w).1).1
  unfolding revoke_creds revoke_application client_of new_auth0_client text_of lookup_field
  revoke_creds-sends id there d w cfg f =
      elim (Result-cases (rotation env cfg id (get_config storage w).1).0) [
        | inl (s, g) ↦ ground (arith, eq_iff id "")
        | inr (inl (x, g)) ↦ ground (arith, eq_iff id "")
        | inr (inr (x, g)) ↦ ground (arith, eq_iff id "")
      ]

module _ (env : Env) (base64 : Base64) (sdk : Sdk) (storage : Storage) where
  -- If a request is answered with a lease, then the configuration is there, the request names an
  -- application, and the provider has given that very application a new secret. The lease is of the
  -- registered type, and its internal data is the application's identifier. Its data is the
  -- identifier, the time, and: where no Transit key is configured, the new secret; where one is,
  -- what Transit made of the secret and the key's name, and nothing else.
  pub rotate_creds-encrypted :
      (req : Request) (d : FieldData) (ty : String) (content internal : Fields) (w : World)
      → (rotate_creds env storage base64 sdk req d w).0 ≡ ok (secret_response ty content internal)
      → (cfg : Fields) × ((get_config storage w).0 ≡ ok (some cfg))
        × (id : String) × (get_string d "application_client_id" w ≡ (ok id, w))
        × (id ≢ "")
        × (ty ≡ secret_type)
        × (internal ≡ field "application_client_id" (str id) end)
        × (s : String) × (u : World) × (rotation env cfg id (get_config storage w).1 ≡ (ok s, u))
        × (((text_of "transit_key" cfg ≡ "")
              × (content ≡ plain_data id (env.format rfc3339 (env.now u.trace)) s))
            ⊎ ((text_of "transit_key" cfg ≢ "")
                × (ct : String) × (content
                    ≡ encrypted_data id
                        (env.format rfc3339 (env.now u.trace))
                        ct
                        (text_of "transit_key" cfg))
                × ((transit_encrypt env base64 sdk
                      (text_of "transit_key" cfg)
                      s
                      (record_event clock_read u)).0
                    ≡ ok ct)))
  unfolding rotate_creds get_string
  rotate_creds-encrypted req d ty content internal w e =
      let (cfg, found, v, given, there, e1) =
        for_application-response env base64 sdk storage d _ ty content internal w e in
      let (s, rotated, e2) =
        rotate_application-response env base64 sdk storage cfg (as_string v) ty content internal _
          e1 in
      let (type_is, internal_is, either) =
        issue-response env base64 sdk (text_of "transit_key" cfg) (as_string v) s ty content
          internal _ e2 in
      (
        cfg,
        found,
        as_string v,
        ground arith,
        there,
        type_is,
        internal_is,
        s,
        _,
        ap (λ r. (r, (rotation env cfg (as_string v) (get_config storage w).1).1)) rotated,
        either,
      )

  -- Revoking a lease that rotate_creds gave succeeds, at any later time, exactly when the
  -- configuration is found and the provider gives the application of the lease a new secret,
  -- whatever the lease's credential was; and where the configuration is found, the requests that the
  -- revocation sends are those of that rotation.
  pub revoke_creds-rotate_creds :
      (req : Request) (d : FieldData) (ty : String) (content internal : Fields) (w : World)
      → (rotate_creds env storage base64 sdk req d w).0 ≡ ok (secret_response ty content internal)
      → (d' : FieldData) (u : World)
      → (id : String) × (get_string d "application_client_id" w ≡ (ok id, w))
        × (((revoke_creds env storage (record { internal_data = some internal }) d' u).0
              ≡ ok nil_response)
            ↔ Rotates env storage id u)
        × ((cfg : Fields)
            → (get_config storage u).0 ≡ ok (some cfg)
            → (revoke_creds env storage (record { internal_data = some internal }) d' u).1
              ≡ (rotation env cfg id (get_config storage u).1).1)
  unfolding rotate_creds
  revoke_creds-rotate_creds req d ty content internal w e d' u =
      let (cfg, found, id, given, there, type_is, internal_is, s, v, rotated, either) =
        rotate_creds-encrypted req d ty content internal w e in
      (
        id,
        given,
        rw internal_is (revoke_creds-named env storage id there d' u),
        rw internal_is (revoke_creds-sends env storage id there d' u),
      )
