-- ===== src/Server/Shutdown/Laws.antt =====
-- What a shutdown drains.
use vault_secrets_broker.Prelude.{
  String, ◌≡◌, refl, ap, ◌∙◌, ◌≢◌, ◌↔◌, Option, none, some, List, [], ◌∷◌, arith, string_eq, lookup,
  inl, inr, Option-cases,
}
use vault_secrets_broker.Exec.{Error, ok, panic, Exec, Result-cases}
use vault_secrets_broker.Net.{World, logged, record_event}
use vault_secrets_broker.Adapter.{Adapter}
use vault_secrets_broker.Adapter.Registry
use vault_secrets_broker.Adapter.Registry.{Registry}
use vault_secrets_broker.Server.Shutdown.{drain_all, shutdown}

-- No `Drain` in the registry panics.
abbrev pub NeverPanics : Registry → Type 0
NeverPanics registry =
    (name : String) (a : Adapter) (drain : Exec World Unit) (w : World) (p : String)
    → Registry.get name registry ≡ ok a
    → a.drain ≡ some drain
    → (drain w).0 ≢ panic p

module _ (registry : Registry) (safe : NeverPanics registry) where
  drain_one :
      (name : String) (order : List String) (w : World)
      → (u : World) × (drain_all registry (name ∷ order) w ≡ drain_all registry order u)
  unfolding drain_all Registry.get
  drain_one name order w = elim (Option-cases (lookup name registry.adapters)) [
    | inl e ↦ (w, ground arith)
    | inr (a, e) ↦ elim (Option-cases a.drain) [
      | inl f ↦ (w, ground arith)
      | inr (drain, f) ↦ elim (Result-cases (drain w).0) [
        | inl (x, g) ↦ ((drain w).1, ground arith)
        | inr (inl (x, g)) ↦ (
          record_event (logged "WARN" "adapter drain timed out" (("adapter", name) ∷ []) (some x))
              (drain w).1,
          ground arith,
        )
        | inr (inr (p, g)) ↦ absurd (safe name a drain w p (ground arith) f g)
      ]
    ]
  ]

  drain_all-ok : (order : List String) (w : World) → (drain_all registry order w).0 ≡ ok tt
  unfolding drain_all
  drain_all-ok [] w = refl
  drain_all-ok (name ∷ order) w =
      let (u, e) = drain_one name order w in ap (λ p. p.0) e ∙ drain_all-ok order u

  -- Where no `Drain` panics, a shutdown succeeds exactly when the HTTP server's own shutdown does,
  -- whatever the order of the adapters and however many of them run out of time.
  pub shutdown-eq-ok_iff :
      (http_shutdown : Option Error) (order : List String) (w : World)
      → ((shutdown http_shutdown registry order w).0 ≡ ok tt) ↔ (http_shutdown ≡ none)
  unfolding shutdown
  shutdown-eq-ok_iff none order w = (λ e. refl, λ e. drain_all-ok order w)
  shutdown-eq-ok_iff (some x) order w = (λ e. cc e, λ e. cc e)
