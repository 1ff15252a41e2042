-- ===== src/Server/Shutdown.antt =====
-- `Shutdown` of cred-rotation-api/server/server.go. `order` is the order in which `Names` ranges
-- over the registry's map.
pub mod Laws
use vault_secrets_broker.Prelude.{String, Option, none, some, List, [], ◌∷◌}
use vault_secrets_broker.Exec.{
  Error, Result, ok, err, panic, Exec, pure, fail, lift, ◌>>=◌, ◌>>◌, attempt,
}
use vault_secrets_broker.Net.{World, log}
use vault_secrets_broker.Adapter.{Adapter}
use vault_secrets_broker.Adapter.Registry
use vault_secrets_broker.Adapter.Registry.{Registry}

abbrev pub drain_adapter : String → Option (Exec World Unit) → Exec World Unit
drain_adapter name none = pure tt
drain_adapter name (some drain) = do
  r ← attempt drain
  elim r [
    | ok _ ↦ pure tt
    | err e ↦ log "WARN" "adapter drain timed out" (("adapter", name) ∷ []) (some e)
    | panic p ↦ lift (panic p)
  ]

abbrev drain_found : String → Result Adapter → Exec World Unit
drain_found name (ok a) = drain_adapter name a.drain
drain_found name (err e) = pure tt
drain_found name (panic p) = lift (panic p)

unfoldable pub drain_all : Registry → (order : List String) → Exec World Unit
drain_all registry [] = pure tt
drain_all registry (name ∷ order) = do
  drain_found name (Registry.get name registry)
  drain_all registry order

unfoldable pub shutdown :
    (http_shutdown : Option Error) → Registry → (order : List String) → Exec World Unit
unfolding drain_all
shutdown (some e) registry order = fail e
shutdown none registry order = drain_all registry order
