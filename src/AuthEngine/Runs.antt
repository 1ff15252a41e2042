-- ===== src/AuthEngine/Runs.antt =====
-- The Auth0 engine over any sequence of calls.
use mathlib.Core.Path.{subst}
use mathlib.Core.List.{Memᴰ}
use vault_secrets_broker.Prelude.{String, ◌≡◌, sym, ◌≢◌, Option, none, some, string_eq}
use vault_secrets_broker.Json.{Fields, Payload, obj, str}
use vault_secrets_broker.Exec.{ok}
use vault_secrets_broker.Net.{World, Env}
use vault_secrets_broker.Vault.{Base64}
use vault_secrets_broker.Engine.{text_of, Storage, FieldData, Request, Sdk, Handler, handlers}
use vault_secrets_broker.Engine.Stored.{Faithful}
use vault_secrets_broker.AuthEngine.{set_field, get_config}
use vault_secrets_broker.AuthEngine.Config.{Complete, lookup-set_field}
use vault_secrets_broker.AuthEngine.Paths.{backend}
use vault_secrets_broker.AuthEngine.Keeps.{config_of}
use vault_secrets_broker.AuthEngine.Moves.{
  Move, stay, configure, renew_secret, Extends, handlers-Moves, get_config-ok,
}

-- A stored configuration has the fields that it needs.
abbrev Sound : Option Payload → Type 0
Sound (some (some (obj cfg))) = Complete cfg
Sound _ = Unit

set_field-Complete :
    (cfg : Fields) (s : String)
    → s ≢ ""
    → Complete cfg
    → Complete (set_field "client_secret" (str s) cfg)
unfolding Complete text_of
set_field-Complete cfg s there (a, b, c, e) =
    rw
      (
        lookup-set_field "client_secret" "domain" (str s) cfg,
        lookup-set_field "client_secret" "client_id" (str s) cfg,
        lookup-set_field "client_secret" "client_secret" (str s) cfg,
        lookup-set_field "client_secret" "audience" (str s) cfg,
      )
      (a, b, there, e)

Move-Sound : {c c' : Option Payload} → Move c c' → Sound c → Sound c'
Move-Sound stay sound = sound
Move-Sound (configure cfg complete) sound = complete
Move-Sound (renew_secret cfg s there) complete = set_field-Complete cfg s there complete

module _ (env : Env) (storage : Storage) (base64 : Base64) (sdk : Sdk) where
  -- The states that calls of the backend's handlers lead to, one after another.
  pub data Run (w : World) : World → Type 1 where
    begin : Run w w
    call :
        {w' : World}
        → Run w w'
        → (h : Handler) → Memᴰ h (handlers (backend env storage base64 sdk))
        → (req : Request) (d : FieldData) → Run w (h req d w').1

  module _ (faithful : Faithful storage) (extends : Extends env storage base64 sdk) where
    Run-Sound : {w w' : World} → Run w w' → Sound (config_of w) → Sound (config_of w')
    Run-Sound begin sound = sound
    Run-Sound (call r h m req d) sound =
        Move-Sound (handlers-Moves env storage base64 sdk faithful extends h m req d _)
          (Run-Sound r sound)

    -- From a storage with no configuration, after any sequence of calls, a configuration
    -- that the engine finds has its domain, client id, client secret and audience. Get gives
    -- what was put last, and LeaseExtend writes nothing to the storage.
    pub Run-Complete :
        (w w' : World) (cfg : Fields)
        → config_of w ≡ none
        → Run w w'
        → (get_config storage w').0 ≡ ok (some cfg)
        → Complete cfg
    Run-Complete w w' cfg e r f =
        subst Sound (get_config-ok storage faithful w' cfg f) (Run-Sound r (subst Sound (sym e) tt))
