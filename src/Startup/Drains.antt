-- ===== src/Startup/Drains.antt =====
-- No `Drain` of the adapters that the start registers panics.
use vault_secrets_broker.Prelude.{
  ℕ, String, ◌≡◌, ◌≢◌, Bool, inl, inr, Option, some, ap, ◌∙◌, sym, List, [], ◌∷◌, All, arith,
  string_eq, lookup, lookup-insert, Bool-cases, Option-cases, ◌==◌,
}
use vault_secrets_broker.Exec.{Result-cases, ok, panic, Exec}
use vault_secrets_broker.Net.{World, Env, Cleanup}
use vault_secrets_broker.Adapter.{Adapter}
use vault_secrets_broker.Adapter.Registry
use vault_secrets_broker.Adapter.Registry.{Registry}
use vault_secrets_broker.Adapter.Shared.{drain_within}
use vault_secrets_broker.Adapter.Shared.Drain.{drain_within-no_panic}
use vault_secrets_broker.Server.Shutdown.Laws.{NeverPanics}
use vault_secrets_broker.Vault.{Base64}
use vault_secrets_broker.Auth0
use vault_secrets_broker.Splunk
use vault_secrets_broker.GitHub
use vault_secrets_broker.Datadog
use vault_secrets_broker.SonarQube
use vault_secrets_broker.PagerDuty
use vault_secrets_broker.Startup.Names.{load_registry-registered}
use vault_secrets_broker.Startup.{register_all, load_registry}

-- The adapter's `Drain`, where it has one, does not panic.
abbrev Calm : Adapter → Type 0
Calm a =
    (drain : Exec World Unit) (w : World) (p : String)
    → a.drain ≡ some drain
    → (drain w).0 ≢ panic p

register-NeverPanics :
    (a : Adapter) (r next : Registry)
    → Calm a
    → NeverPanics r
    → Registry.register a r ≡ ok next
    → NeverPanics next
unfolding Registry.register Registry.get
register-NeverPanics a r next calm safe made name b drain w p found has =
    let written = lookup-insert a.name name a r.adapters in
    elim (Option-cases (lookup a.name r.adapters)) [
      | inl e ↦ elim (Bool-cases (a.name == name)) [
        | inl f ↦ let same : a ≡ b = ground arith in calm drain w p (rw same has)
        | inr f ↦ safe name b drain w p (ground arith) has
      ]
      | inr (x, e) ↦ absurd (ground arith)
    ]

new_registry-NeverPanics : NeverPanics Registry.new_registry
unfolding Registry.get Registry.new_registry lookup
new_registry-NeverPanics name a drain w p found has = cc found

-- A `Drain` that is the wait of `drain_within` does not panic.
own :
    (drain : Exec World Unit) (w : World) (p : String) (name : String)
    (cleanup : Cleanup → Exec World Unit) (ended : World → ℕ)
    → ◌≡◌ {A = Option (Exec World Unit)}
        (some (λ v. drain_within name cleanup (ended v) v))
        (some drain)
    → (drain w).0 ≢ panic p
own drain w p name cleanup ended has e =
    let same : (λ v. drain_within name cleanup (ended v) v) ≡ drain = ground arith in
    drain_within-no_panic name cleanup (ended w) w p (ap (λ d. (d w).0) same ∙ e)

module _ (env : Env) (base64 : Base64) (key : String) (valid_pem : String → Bool) where
  register_all-NeverPanics :
      (many : List Adapter) (r last : Registry)
      → All Calm many
      → NeverPanics r
      → register_all env base64 key valid_pem many r ≡ ok last
      → NeverPanics last
  unfolding register_all
  register_all-NeverPanics [] r last calm safe made =
      let same : r ≡ last = ground arith in rw (sym same) safe
  register_all-NeverPanics (a ∷ many) r last (c, calm) safe made =
      elim (Result-cases (Registry.register a r)) [
        | inl (next, e) ↦
            register_all-NeverPanics many next last calm (register-NeverPanics a r next c safe e)
              (ground arith)
        | inr x ↦ absurd (ground arith)
      ]

  adapters-Calm :
      (a : Auth0.Auth0) (b : Splunk.Splunk) (c : GitHub.GitHub) (d : Datadog.Datadog)
      (e : SonarQube.SonarQube) (f : PagerDuty.PagerDuty)
      → All Calm (
          Auth0.adapter env a
          ∷ Splunk.adapter env b
          ∷ GitHub.adapter env c
          ∷ Datadog.adapter env d
          ∷ SonarQube.adapter env e
          ∷ PagerDuty.adapter env f
          ∷ [])
  unfolding Auth0.adapter Splunk.adapter GitHub.adapter Datadog.adapter SonarQube.adapter
      PagerDuty.adapter Splunk.drain Datadog.drain SonarQube.drain PagerDuty.drain
  adapters-Calm a b c d e f = (
    λ drain w p has. cc has,
    (
      λ drain w p has. own drain w p _ (Splunk.cleanup env b) _ has,
      (
        λ drain w p has. cc has,
        (
          λ drain w p has. own drain w p _ (Datadog.cleanup env d) _ has,
          (
            λ drain w p has. own drain w p _ (SonarQube.cleanup env e) _ has,
            (λ drain w p has. own drain w p _ (PagerDuty.cleanup env f) _ has, tt),
          ),
        ),
      ),
    ),
  )

  -- Whatever a start registers, no `Drain` of it panics.
  pub load_registry-NeverPanics :
      (w : World) (r : Registry)
      → (load_registry env base64 key valid_pem w).0 ≡ ok r
      → NeverPanics r
  load_registry-NeverPanics w r h =
      let (a, b, c, d, e, f, made) = load_registry-registered env base64 key valid_pem w r h in
      register_all-NeverPanics _ Registry.new_registry r (adapters-Calm a b c d e f)
        new_registry-NeverPanics made
