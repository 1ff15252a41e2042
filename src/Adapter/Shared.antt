-- ===== src/Adapter/Shared.antt =====
-- What the packages under cred-rotation-api/adapter/ each hold a copy of: `sanitizeForLog`,
-- `randomHex`, and the wait on the clean-up goroutines in `Drain`.
pub mod Provider
pub mod Sanitize
pub mod Contract
pub mod Deletion
pub mod Drain
pub mod Accounts
pub mod OldCredential
use Prim.Native.Char.{Char, code}
use Prim.Native.String
use vault_secrets_broker.Prelude.{
  ℕ, zero, suc, ◌+◌, String, Bool, true, false, ◌||◌, Option, none, some, List, [], ◌∷◌, ltb, leb,
  ◌==◌, nat_eq, string_eq, if◌then◌else◌,
}
use vault_secrets_broker.Exec.{msg, Result, ok, err, panic, Exec, pure, fail, ◌>>=◌, ◌>>◌}
use vault_secrets_broker.Net.{Env, World, Cleanup, Event, read_random, launch}
use vault_secrets_broker.Net.Url.{hex_encode}

abbrev is_control : Char → Bool
is_control c = ltb (code c) 0x20 || code c == 0x7f

-- the loop, with `n` runes written
sanitize_from : ℕ → String → String
sanitize_from n String.[] = String.[]
sanitize_from n (String.◌∷◌ c s) = elim (is_control c) [
  | true ↦ sanitize_from n s
  | false ↦ String.◌∷◌ c (elim (leb 256 (n + 1)) [ true ↦ "…" | false ↦ sanitize_from (n + 1) s ])
]

unfoldable pub sanitize_for_log : String → String
unfolding sanitize_from
sanitize_for_log s = sanitize_from 0 s

unfoldable pub random_hex : Env → ℕ → Exec World String
unfolding hex_encode
random_hex env n = do b ← read_random env n; pure (hex_encode b)

-- the `go` statement of `Rotate`, under its test of the old identifier
abbrev pub launch_for : (adapter provider_id : String) → Option String → Exec World Unit
launch_for adapter provider_id none = pure tt
launch_for adapter provider_id (some old) =
    launch (record { adapter = adapter; provider_id = provider_id; old_id = old })

-- The goroutine that ends first, among those of an adapter, and the others.
unfoldable pub next_pending : String → List Cleanup → Option (Cleanup × List Cleanup)
next_pending name [] = none
next_pending name (c ∷ cs) = elim (c.adapter == name) [
  | true ↦ some (c, cs)
  | false ↦ elim (next_pending name cs) [ none ↦ none | some (d, ds) ↦ some (d, c ∷ ds) ]
]

-- `cleanupWg.Done()`
abbrev set_pending : List Cleanup → Exec World Unit
set_pending cs w = (ok tt, record w { pending = cs })

-- The `select` of `Drain`, where `k` goroutines end before the context does.
module _ (name : String) (cleanup : Cleanup → Exec World Unit) where
  unfoldable pub drain_within : ℕ → Exec World Unit
  drain_within zero w = elim (next_pending name w.pending) [
    | none ↦ (ok tt, w)
    | some _ ↦ (err (msg "context deadline exceeded"), w)
  ]
  drain_within (suc k) w = elim (next_pending name w.pending) [
    | none ↦ (ok tt, w)
    | some (c, cs) ↦ drain_within k (cleanup c (record w { pending = cs })).1
  ]
