-- ===== src/Engine/Stored.antt =====
-- What a storage holds, read off the events.
use vault_secrets_broker.Prelude.{
  String, ◌≡◌, Option, none, some, List, [], ◌∷◌, ◌==◌, string_eq, if◌then◌else◌,
}
use vault_secrets_broker.Json.{Payload}
use vault_secrets_broker.Exec.{ok}
use vault_secrets_broker.Net.{Event, stored}
use vault_secrets_broker.Engine.{Storage}

-- The value of the last Put that succeeded.
unfoldable pub last_stored : (key : String) → List Event → Option Payload
last_stored key [] = none
last_stored key (stored k doc ∷ es) =
    let rest = last_stored key es in if k == key then some (some doc) else rest
last_stored key (_ ∷ es) = last_stored key es

-- What Vault documents of a storage: Get gives what was put last, or an error. A Put that gave an
-- error has left the entry as it was.
abbrev pub Faithful : Storage → Type 0
Faithful storage =
    (es : List Event) (key : String) (entry : Option Payload)
    → storage.get es key ≡ ok entry
    → entry ≡ last_stored key es
