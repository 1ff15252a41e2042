-- ===== src/Adapter/Registry/Laws.antt =====
-- What the registry promises: one adapter for each name, found under its own name.
use vault_secrets_broker.Prelude.{
  String, ◌≡◌, ◌↔◌, arith, ◌==◌, string_eq, if◌then◌else◌, lookup, lookup-insert, Option-cases, inl,
  inr,
}
use vault_secrets_broker.Exec.{ok, panic}
use vault_secrets_broker.Adapter.{Adapter}
use vault_secrets_broker.Adapter.Registry.{Registry, register, get}

-- After a registration the new adapter is found under its name, and every other name gives what it
-- gave before.
get-register :
    (a : Adapter) (r r' : Registry) (name : String)
    → register a r ≡ ok r'
    → get name r' ≡ (if a.name == name then ok a else get name r)
unfolding register get
get-register a r r' name h = ground (arith, lookup-insert a.name name a r.adapters)

-- A registration panics exactly when the name is taken, and otherwise succeeds.
register-eq-panic_iff :
    (a : Adapter) (r : Registry)
    → (register a r ≡ panic "adapter already registered") ↔ ((b : Adapter) × (get a.name r ≡ ok b))
unfolding register get
register-eq-panic_iff a r = elim (Option-cases (lookup a.name r.adapters)) [
  | inl e ↦ (λ h. ground arith, λ h. absurd (cc (h.1)))
  | inr e ↦ (λ h. (e.0, ground arith), λ h. ground arith)
]
