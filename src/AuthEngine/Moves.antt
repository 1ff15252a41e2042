-- ===== src/AuthEngine/Moves.antt =====
-- The stored configuration of the Auth0 engine as a machine of its own: what each handler may make
-- of it.
use mathlib.Core.Path.{subst}
use mathlib.Core.List.{Memᴰ}
use vault_secrets_broker.Prelude.{
  String, ℕ, ◌≡◌, refl, sym, ap, ◌∙◌, ◌≢◌, ◌⊎◌, inl, inr, Option, none, some, List, [], ◌∷◌, arith,
  eq_iff,
}
use vault_secrets_broker.Json.{Fields, Payload, obj, str}
use vault_secrets_broker.Exec.{ok, Exec, Result-cases, wrap, context, ◌>>=◌}
use vault_secrets_broker.Net.{World, Env}
use vault_secrets_broker.Vault.{Base64, lookup_field}
use vault_secrets_broker.Engine.{
  text_of, get_string, Storage, FieldData, Request, Response, Sdk, Handler, handlers, path_handlers,
  path_callbacks, lease_handlers,
}
use vault_secrets_broker.Engine.Stored.{last_stored, Faithful}
use vault_secrets_broker.AuthEngine.{
  config_key, set_field, required, client_of, get_config, store_connection, write_config,
  read_config,
}
use vault_secrets_broker.AuthEngine.Client.{Auth0Client, rotate_secret}
use vault_secrets_broker.AuthEngine.Root.{store_rotated, rotate_found, rotate_root}
use vault_secrets_broker.AuthEngine.Config.{given, Complete}
use vault_secrets_broker.AuthEngine.Paths.{
  path_config, path_rotate_root, path_status, path_creds, paths, secret_auth0_creds, backend,
}
use vault_secrets_broker.AuthEngine.Leases.{rotate_creds, check_status, revoke_creds, renew_creds}
use vault_secrets_broker.AuthEngine.Keeps.{
  rotate_creds-Keeps, check_status-Keeps, revoke_creds-Keeps, client_of-Keeps, config_of, Keeps,
  rotate_secret-Keeps, get_string-Keeps, get_config-Keeps, read_config-Keeps,
}

pub data Move : Option Payload → Option Payload → Type 0 where
  stay : {c : Option Payload} → Move c c
  -- config/connection is written, with each field that it needs
  configure : {c : Option Payload} → (cfg : Fields) → Complete cfg → Move c (some (some (obj cfg)))
  -- the client secret is replaced, and nothing else
  renew_secret :
      (cfg : Fields) (s : String)
      → s ≢ ""
      → Move (some (some (obj cfg))) (some (some (obj (set_field "client_secret" (str s) cfg))))

stay_at : (c c' : Option Payload) → c' ≡ c → Move c c'
stay_at c c' e = rw e stay

required-cases :
    (d : FieldData) (name : String) (rest : String → Exec World Response) (w : World)
    → ((required d name rest w).1 ≡ w)
      ⊎ ((given d name ≢ "") × (required d name rest w ≡ rest (given d name) w))
unfolding required given
required-cases d name rest w = ground (arith, eq_iff (given d name) "")

module _ (storage : Storage) where
  store_connection-cases :
      (fs : Fields) (w : World)
      → (config_of (store_connection storage fs w).1 ≡ config_of w)
        ⊎ (config_of (store_connection storage fs w).1 ≡ some (some (obj fs)))
  unfolding store_connection last_stored
  store_connection-cases fs w = ground arith

  store_rotated-cases :
      (env : Env) (cfg : Fields) (s : String) (w : World)
      → (config_of (store_rotated env storage cfg s w).1 ≡ config_of w)
        ⊎ (config_of (store_rotated env storage cfg s w).1
            ≡ some (some (obj (set_field "client_secret" (str s) cfg))))
  unfolding store_rotated last_stored
  store_rotated-cases env cfg s w = ground arith

  pub get_config-ok :
      Faithful storage
      → (w : World) (cfg : Fields) → (get_config storage w).0 ≡ ok (some cfg)
      → config_of w ≡ some (some (obj cfg))
  unfolding get_config
  get_config-ok faithful w cfg e = elim (Result-cases (storage.get w.trace config_key)) [
    | inl (entry, f) ↦ ground (arith, faithful w.trace config_key entry f)
    | inr (inl (x, f)) ↦ absurd (ground arith)
    | inr (inr (x, f)) ↦ absurd (ground arith)
  ]

rotate_secret-ok :
    (env : Env) (c : Auth0Client) (id s : String) (w : World)
    → (rotate_secret env c id w).0 ≡ ok s
    → s ≢ ""
unfolding rotate_secret
rotate_secret-ok env c id s w e = ground (arith, eq_iff s "")

-- Where the first action keeps the configuration, the second one makes the step.
bind-Move :
    {A : Type 0} (m : Exec World A) (f : A → Exec World Response) (w : World)
    → Keeps m
    → ((a : A) → (m w).0 ≡ ok a → Move (config_of (m w).1) (config_of (f a (m w).1).1))
    → Move (config_of w) (config_of ((m >>= f) w).1)
bind-Move m f w k h = elim (Result-cases (m w).0) [
  | inl (a, e) ↦ rw (sym (k w)) (rw e (h a e))
  | inr (inl (x, e)) ↦ rw e (stay_at (config_of w) _ (k w))
  | inr (inr (x, e)) ↦ rw e (stay_at (config_of w) _ (k w))
]

Option-Move :
    {A : Type 0} (o : Option A) (m : Exec World Response) (f : A → Exec World Response) (w : World)
    → Move (config_of w) (config_of (m w).1)
    → ((a : A) → o ≡ some a → Move (config_of w) (config_of (f a w).1))
    → Move
        (config_of w)
        (config_of ((elim o as (λ x. Exec World Response) [ none ↦ m | some a ↦ f a ]) w).1)
Option-Move none m f w h k = h
Option-Move (some a) m f w h k = k a refl

-- A handler's step on the stored configuration.
abbrev pub Moves : Handler → Type 0
Moves h = (req : Request) (d : FieldData) (w : World) → Move (config_of w) (config_of (h req d w).1)

Keeps-Moves : (h : Handler) → ((req : Request) (d : FieldData) → Keeps (h req d)) → Moves h
Keeps-Moves h k req d w = stay_at (config_of w) (config_of (h req d w).1) (k req d w)

required-Move :
    (d : FieldData) (name : String) (rest : String → Exec World Response) (w : World)
    → (given d name ≢ "" → Move (config_of w) (config_of (rest (given d name) w).1))
    → Move (config_of w) (config_of (required d name rest w).1)
required-Move d name rest w h = elim (required-cases d name rest w) [
  | inl e ↦ stay_at (config_of w) _ (ap config_of e)
  | inr (there, e) ↦ rw e (h there)
]

module _ (storage : Storage) where
  store_connection-Move :
      (cfg : Fields) (w : World)
      → Complete cfg
      → Move (config_of w) (config_of (store_connection storage cfg w).1)
  store_connection-Move cfg w complete = elim (store_connection-cases storage cfg w) [
    | inl e ↦ stay_at (config_of w) _ e
    | inr e ↦ rw e (configure cfg complete)
  ]

  write_config-Moves : Moves (write_config storage)
  unfolding write_config Complete text_of lookup_field
  write_config-Moves req d w = required-Move d "domain" _ w (λ domain.
      required-Move d "client_id" _ w (λ client_id.
        required-Move d "client_secret" _ w (λ client_secret.
          required-Move d "audience" _ w (λ audience.
            bind-Move (get_string d "transit_key") _ w (get_string-Keeps d "transit_key")
              (λ t e. store_connection-Move _ _ (domain, client_id, client_secret, audience))))))

module _ (env : Env) (storage : Storage) (faithful : Faithful storage) where
  store_rotated-Move :
      (cfg : Fields) (s : String) (w : World)
      → s ≢ ""
      → config_of w ≡ some (some (obj cfg))
      → Move (config_of w) (config_of (store_rotated env storage cfg s w).1)
  store_rotated-Move cfg s w there held = elim (store_rotated-cases storage env cfg s w) [
    | inl e ↦ stay_at (config_of w) _ e
    | inr e ↦ rw (e, held) (renew_secret cfg s there)
  ]

  rotate_found-Move :
      (cfg : Fields) (w : World)
      → config_of w ≡ some (some (obj cfg))
      → Move (config_of w) (config_of (rotate_found env storage cfg w).1)
  unfolding rotate_found
  rotate_found-Move cfg w held = bind-Move (client_of cfg) _ w (client_of-Keeps cfg) (λ c e.
      let w' = (client_of cfg w).1 in
      bind-Move
        (context (wrap "rotate-root: Auth0 rotation failed")
          (rotate_secret env c (text_of "client_id" cfg)))
        _ w' (rotate_secret-Keeps env c (text_of "client_id" cfg))
        (λ s f.
          store_rotated-Move cfg s _
            (rotate_secret-ok env c (text_of "client_id" cfg) s w' (ground arith))
            (rotate_secret-Keeps env c (text_of "client_id" cfg) w'
              ∙ client_of-Keeps cfg w
              ∙ held)))

  rotate_root-Moves : Moves (rotate_root env storage)
  unfolding rotate_root
  rotate_root-Moves req d w =
      bind-Move (get_config storage) _ w (get_config-Keeps storage) (λ found e.
        Option-Move found _ _ (get_config storage w).1 stay (λ cfg f.
          rotate_found-Move cfg (get_config storage w).1
            (get_config-Keeps storage w ∙ get_config-ok storage faithful w cfg (e ∙ ap ok f))))

data Each : List Handler → Type 1 where
  nil : Each []
  cons : {h : Handler} {hs : List Handler} → Moves h → Each hs → Each (h ∷ hs)

Each-mem : {hs : List Handler} → Each hs → (h : Handler) → Memᴰ h hs → Moves h
Each-mem nil h m = elim m [ ]
Each-mem (Each.cons m ms) h (Memᴰ.head e) = subst Moves (sym e) m
Each-mem (Each.cons m ms) h (Memᴰ.tail t) = Each-mem ms h t

module _ (env : Env) (storage : Storage) (base64 : Base64) (sdk : Sdk) where
  -- A lease's extension does not write to the storage of the engine.
  abbrev pub Extends : Type 0
  Extends =
      (increment max : ℕ) (req : Request) (d : FieldData)
      → Keeps (sdk.lease_extend increment max req d)

  -- Whatever handler of the backend Vault calls, with any request, fields, providers and Vault: the
  -- stored configuration stays as it is, is written with the four fields that it needs, or has its
  -- client secret replaced by a nonempty one. Get gives what was put last, and LeaseExtend writes
  -- nothing to the storage.
  pub handlers-Moves :
      Faithful storage
      → Extends
      → (h : Handler) → Memᴰ h (handlers (backend env storage base64 sdk))
      → (req : Request) (d : FieldData) (w : World) → Move (config_of w) (config_of (h req d w).1)
  unfolding handlers path_handlers path_callbacks lease_handlers backend paths path_config
      path_rotate_root path_creds path_status secret_auth0_creds renew_creds
  handlers-Moves faithful extends h =
      Each-mem
        (Each.cons (write_config-Moves storage) (
          Each.cons (write_config-Moves storage) (
            Each.cons (Keeps-Moves (read_config storage) (read_config-Keeps storage)) (
              Each.cons (rotate_root-Moves env storage faithful) (
                Each.cons
                  (Keeps-Moves (rotate_creds env storage base64 sdk)
                    (rotate_creds-Keeps env base64 sdk storage))
                  (Each.cons
                    (Keeps-Moves (check_status env storage) (check_status-Keeps env storage))
                    (Each.cons (Keeps-Moves (renew_creds sdk) (extends 0 0)) (
                      Each.cons
                        (Keeps-Moves (revoke_creds env storage) (revoke_creds-Keeps env storage))
                        Each.nil))))))))
        h
