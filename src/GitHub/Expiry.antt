-- ===== src/GitHub/Expiry.antt =====
-- The lifetime of a token that the GitHub adapter asks for.
use vault_secrets_broker.Prelude.{
  ℕ, ◌≤◌, String, ◌≡◌, some, List, arith, nat_eq, lookup, Option-cases, inl, inr,
}
use vault_secrets_broker.Prelude.Int.{pos}
use vault_secrets_broker.Prelude.Decimal.{atoi}
use vault_secrets_broker.GitHub.{expire_days}

-- Whatever "expires_days" holds, the token is asked for 1 to 366 days.
expire_days_bounds :
    (meta : List (String × String)) → (1 ≤ expire_days meta) × (expire_days meta ≤ 366)
unfolding expire_days
expire_days_bounds meta = elim (Option-cases (lookup "expires_days" meta)) [
  | inl e ↦ ground arith
  | inr (v, e) ↦ ground arith
]

-- A number of days from 1 to 366 is taken as it is.
pub expire_days-given :
    (meta : List (String × String)) (v : String) (n : ℕ)
    → lookup "expires_days" meta ≡ some v
    → atoi v ≡ some (pos n)
    → 1 ≤ n
    → n ≤ 366
    → expire_days meta ≡ n
unfolding expire_days
expire_days-given meta v n e f low high = ground arith
