-- ===== src/Adapter/Registry.antt =====
-- cred-rotation-api/adapter/registry.go. The lock makes each method atomic.
pub mod Laws
use vault_secrets_broker.Prelude.{String, Option, none, some, List, [], ◌∷◌, lookup, insert, keys}
use vault_secrets_broker.Exec.{named, Result, ok, err, panic}
use vault_secrets_broker.Adapter.{Adapter}

pub record Registry : Type 0 where
  pub adapters : List (String × Adapter)

unfoldable pub new_registry : Registry
new_registry = record { adapters = [] }

unfoldable pub register : Adapter → Registry → Result Registry
unfolding lookup insert
register a r = elim (lookup a.name r.adapters) [
  | some _ ↦ panic "adapter already registered"
  | none ↦ ok (record { adapters = insert a.name a r.adapters })
]

unfoldable pub get : String → Registry → Result Adapter
unfolding lookup
get name r = elim (lookup name r.adapters) [
  | none ↦ err (named "no adapter registered for provider" name)
  | some a ↦ ok a
]

-- In some order: a Go map has none of its own.
unfoldable pub names : Registry → List String
unfolding keys
names r = keys r.adapters
