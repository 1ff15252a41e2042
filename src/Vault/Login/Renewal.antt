-- ===== src/Vault/Login/Renewal.antt =====
-- How long the renewer waits.
use vault_secrets_broker.Prelude.{
  Option-cases, sym, ◌∙◌, zero, suc, ◌≢◌, String, ◌≡◌, refl, inl, inr, true, arith, Bool-cases,
}
use vault_secrets_broker.Prelude.Int.{ℤ, pos, ltb_ℤ, wrap_64, ◌*ℤ◌, wrap_64-ne-one}
use vault_secrets_broker.Exec.{ok, panic, Result-cases}
use vault_secrets_broker.Net.{World, Env, Time}
use vault_secrets_broker.Vault.{lookup_field}
use vault_secrets_broker.Vault.Transit.{VaultReply-cases}
use vault_secrets_broker.Vault.Login.{
  ttl_seconds, Spire, fallback_interval, token_ttl, renew_interval,
}

two_or_more : (t : ℤ) → ltb_ℤ (pos 0) t ≡ true → t ≢ pos 1 → ltb_ℤ (pos 1) t ≡ true
two_or_more (pos zero) e f = absurd (ground arith)
two_or_more (pos (suc zero)) e f = absurd (f refl)
two_or_more (pos (suc (suc n))) e f = ground arith
two_or_more (ℤ.negsuc n) e f = absurd (ground arith)

module _ (env : Env) (spire : Spire) (seven_tenths : ℤ → ℤ) where
  token_ttl-no_panic : (w : World) (p : String) → (token_ttl env w).0 ≡ panic p → ⊥
  unfolding token_ttl
  token_ttl-no_panic w p e = ground arith

  token_ttl-seconds :
      (w : World) (t : Time)
      → (token_ttl env w).0 ≡ ok t
      → (n : ℤ) × (t ≡ wrap_64 (n *ℤ pos 1000000000))
  unfolding token_ttl
  token_ttl-seconds w t e =
      elim (VaultReply-cases (env.vault_read w.trace w.token "auth/token/lookup-self")) [
        | inl (s, f) ↦ elim (Option-cases (lookup_field "ttl" s.content)) [
          | inl g ↦ absurd (ground arith)
          | inr (raw, g) ↦ elim (Option-cases (ttl_seconds env raw)) [
            | inl h ↦ absurd (ground arith)
            | inr (n, h) ↦ (n, ground arith)
          ]
        ]
        | inr (inl f) ↦ absurd (ground arith)
        | inr (inr (x, f)) ↦ absurd (ground arith)
      ]

  -- A wait is never of no length, so that the renewer does not spin, whatever Vault answers: the
  -- interval is always found, and it is positive where seven tenths of two nanoseconds or more are.
  pub renew_interval-positive :
      ((t : ℤ) → ltb_ℤ (pos 1) t ≡ true → ltb_ℤ (pos 0) (seven_tenths t) ≡ true)
      → (w : World)
      → (t : Time) × ((renew_interval env spire seven_tenths w).0 ≡ ok t) × (ltb_ℤ (pos 0) t ≡ true)
  unfolding renew_interval
  renew_interval-positive h w = elim (Result-cases (token_ttl env w).0) [
    | inl (t, e) ↦ elim (Bool-cases (ltb_ℤ (pos 0) t)) [
      | inl f ↦
          let (n, seconds) = token_ttl-seconds w t e in
          let more = wrap_64-ne-one n in
          (seven_tenths t, ground arith, h t (two_or_more t f (λ g. more (sym seconds ∙ g))))
      | inr f ↦ (fallback_interval, ground arith, refl)
    ]
    | inr (inl (x, e)) ↦ (fallback_interval, ground arith, refl)
    | inr (inr (p, e)) ↦ absurd (token_ttl-no_panic w p e)
  ]
