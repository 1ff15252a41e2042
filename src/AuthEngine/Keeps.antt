-- ===== src/AuthEngine/Keeps.antt =====
-- What leaves the stored configuration of the Auth0 engine as it is.
use vault_secrets_broker.Prelude.{String, ◌≡◌, refl, inl, inr, Option, none, some, arith, eq_iff}
use vault_secrets_broker.Json.{Fields, Payload}
use vault_secrets_broker.Exec.{
  Error, Result, ok, err, panic, Result-cases, Exec, context, attempt, ◌>>=◌,
}
use vault_secrets_broker.Net.{World, Env, clock_read, record_event}
use vault_secrets_broker.Auth0.{cached}
use vault_secrets_broker.Vault.{Base64}
use vault_secrets_broker.Engine.{get_string, text_of, Storage, FieldData, Request, Response, Sdk}
use vault_secrets_broker.Engine.Stored.{last_stored}
use vault_secrets_broker.AuthEngine.Client.{
  Auth0Client, new_auth0_client, fetch_token, management_token, rotate_secret, app_active,
}
use vault_secrets_broker.AuthEngine.{config_key, client_of, get_config, read_config}
use vault_secrets_broker.AuthEngine.Leases.{
  transit_encrypt, issue, for_application, rotate_application, rotate_creds, check_application,
  check_status, revoke_application, revoke_creds,
}

-- The stored configuration, as the events show it.
abbrev pub config_of : World → Option Payload
config_of w = last_stored config_key w.trace

abbrev pub Keeps : {A : Type 0} → Exec World A → Type 0
Keeps m = (w : World) → config_of (m w).1 ≡ config_of w

module _ {A : Type 0} where
  context-Keeps : (f : Error → Error) (m : Exec World A) → Keeps m → Keeps (context f m)
  context-Keeps f m h w = h w

  attempt-Keeps : (m : Exec World A) → Keeps m → Keeps (attempt m)
  unfolding last_stored
  attempt-Keeps m h w = ground (arith, h w, Result-cases (m w).0)

bind-Keeps :
    {A B : Type 0} (m : Exec World A) (f : A → Exec World B)
    → Keeps m
    → ((a : A) → Keeps (f a))
    → Keeps (m >>= f)
bind-Keeps m f h k w = elim (Result-cases (m w).0) [
  | inl (a, e) ↦ rw (e, k a (m w).1, h w)
  | inr (inl (x, e)) ↦ rw (e, h w)
  | inr (inr (x, e)) ↦ rw (e, h w)
]

module _ {A B : Type 0} where
  Option-Keeps :
      (o : Option A) (m : Exec World B) (f : A → Exec World B)
      → Keeps m
      → ((a : A) → Keeps (f a))
      → Keeps (elim o [ none ↦ m | some a ↦ f a ])
  Option-Keeps none m f h k = h
  Option-Keeps (some a) m f h k = k a

  Result-Keeps :
      (r : Result A) (f : A → Exec World B) (g : Error → Exec World B) (c : String → Exec World B)
      → ((a : A) → Keeps (f a))
      → ((e : Error) → Keeps (g e))
      → ((p : String) → Keeps (c p))
      → Keeps (elim r [ ok a ↦ f a | err e ↦ g e | panic p ↦ c p ])
  Result-Keeps (ok a) f g c h k l = h a
  Result-Keeps (err e) f g c h k l = k e
  Result-Keeps (panic p) f g c h k l = l p

module _ (env : Env) where
  cached-Keeps : Keeps (cached env)
  unfolding last_stored cached
  cached-Keeps w = ground arith

  module _ (c : Auth0Client) where
    fetch_token-Keeps : Keeps (fetch_token env c)
    unfolding last_stored fetch_token
    fetch_token-Keeps w = ground arith

    management_token-Keeps : Keeps (management_token env c)
    unfolding last_stored management_token
    management_token-Keeps w = ground (
      arith,
      cached-Keeps w,
      cached-Keeps (cached env w).1,
      fetch_token-Keeps (cached env (cached env w).1).1,
    )

    pub rotate_secret-Keeps : (id : String) → Keeps (rotate_secret env c id)
    unfolding last_stored rotate_secret
    rotate_secret-Keeps id w = ground (arith, management_token-Keeps w)

    pub app_active-Keeps : (id : String) → Keeps (app_active env c id)
    unfolding last_stored app_active
    app_active-Keeps id w = ground (arith, management_token-Keeps w)

pub client_of-Keeps : (cfg : Fields) → Keeps (client_of cfg)
unfolding last_stored client_of new_auth0_client
client_of-Keeps cfg w = ground arith

module _ (storage : Storage) where
  pub get_config-Keeps : Keeps (get_config storage)
  unfolding last_stored get_config
  get_config-Keeps w = ground arith

  pub read_config-Keeps : (req : Request) (d : FieldData) → Keeps (read_config storage req d)
  unfolding last_stored read_config
  read_config-Keeps req d w = ground (arith, get_config-Keeps w)

pub get_string-Keeps : (d : FieldData) (name : String) → Keeps (get_string d name)
unfolding last_stored get_string
get_string-Keeps d name w = ground arith

for_application-Keeps :
    (storage : Storage) (d : FieldData) (rest : Fields → String → Exec World Response)
    → ((cfg : Fields) (id : String) → Keeps (rest cfg id))
    → Keeps (for_application storage d rest)
unfolding for_application
for_application-Keeps storage d rest h =
    bind-Keeps (get_config storage) _ (get_config-Keeps storage) (λ found.
      Option-Keeps found _ _ (λ w. refl)
        (λ cfg.
          bind-Keeps (get_string d "application_client_id") _
            (get_string-Keeps d "application_client_id")
            (λ id w. ground (arith, h cfg id w, eq_iff id ""))))

module _ (env : Env) (base64 : Base64) (sdk : Sdk) where
  transit_encrypt-Keeps : (key p : String) → Keeps (transit_encrypt env base64 sdk key p)
  unfolding last_stored transit_encrypt
  transit_encrypt-Keeps key p w = ground arith

  issue-Keeps : (key id p : String) → Keeps (issue env base64 sdk key id p)
  unfolding last_stored issue
  issue-Keeps key id p w = ground (arith, transit_encrypt-Keeps key p (record_event clock_read w))

  module _ (storage : Storage) where
    rotate_application-Keeps :
        (cfg : Fields) (id : String) → Keeps (rotate_application env storage base64 sdk cfg id)
    unfolding rotate_application
    rotate_application-Keeps cfg id = bind-Keeps (client_of cfg) _ (client_of-Keeps cfg) (λ c.
        bind-Keeps (attempt (rotate_secret env c id)) _
          (attempt-Keeps (rotate_secret env c id) (rotate_secret-Keeps env c id))
          (λ r.
            Result-Keeps r _ _ _ (issue-Keeps (text_of "transit_key" cfg) id) (λ e w. refl)
              (λ p w. refl)))

    pub rotate_creds-Keeps :
        (req : Request) (d : FieldData) → Keeps (rotate_creds env storage base64 sdk req d)
    unfolding rotate_creds
    rotate_creds-Keeps req d = for_application-Keeps storage d _ rotate_application-Keeps

module _ (env : Env) (storage : Storage) where
  check_application-Keeps :
      (cfg : Fields) (id : String) → Keeps (check_application env storage cfg id)
  unfolding check_application last_stored
  check_application-Keeps cfg id = bind-Keeps (client_of cfg) _ (client_of-Keeps cfg) (λ c.
      bind-Keeps (attempt (app_active env c id)) _
        (attempt-Keeps (app_active env c id) (app_active-Keeps env c id))
        (λ r. Result-Keeps r _ _ _ (λ a w. refl) (λ e w. refl) (λ p w. refl)))

  pub check_status-Keeps : (req : Request) (d : FieldData) → Keeps (check_status env storage req d)
  unfolding check_status
  check_status-Keeps req d = for_application-Keeps storage d _ check_application-Keeps

  revoke_application-Keeps : (id : String) → Keeps (revoke_application env storage id)
  unfolding revoke_application
  revoke_application-Keeps id =
      bind-Keeps (get_config storage) _ (get_config-Keeps storage) (λ found.
        Option-Keeps found _ _ (λ w. refl)
          (λ cfg.
            bind-Keeps (client_of cfg) _ (client_of-Keeps cfg)
              (λ c. bind-Keeps _ _ (rotate_secret-Keeps env c id) (λ s w. refl))))

  pub revoke_creds-Keeps : (req : Request) (d : FieldData) → Keeps (revoke_creds env storage req d)
  unfolding revoke_creds
  revoke_creds-Keeps req d =
      Option-Keeps req.internal_data _ _ (λ w. refl)
        (λ internal w. ground (
          arith,
          revoke_application-Keeps (text_of "application_client_id" internal) w,
          eq_iff (text_of "application_client_id" internal) "",
        ))
