-- ===== src/Chaos/Requests.antt =====
-- The requests of the mock provider, counted from the first that came.
use vault_secrets_broker.Prelude.{
  ℕ, ◌<◌, ◌≡◌, ◌≢◌, Option, none, some, List, [], ◌∷◌, ◌++◌, ◌==◌, nat_eq, arith, if◌then◌else◌,
  length, length-append, inl, inr, Bool-cases,
}
use vault_secrets_broker.Chaos.{Phase}

-- Request number `k`: as many came before it as stand behind it in the list.
unfoldable pub request_at : {F : Type 0} → (k : ℕ) → List (Phase F) → Option (Phase F)
request_at k [] = none
request_at k (p ∷ ps) = if length ps == k then some p else request_at k ps

module _ {F : Type 0} where
  pub request_at-lt :
      (k : ℕ) (ps : List (Phase F)) (p : Phase F) → request_at k ps ≡ some p → k < length ps
  unfolding request_at
  request_at-lt k [] p e = cc e
  request_at-lt k (q ∷ ps) p e = elim (Bool-cases (length ps == k)) [
    | inl f ↦ ground arith
    | inr f ↦ ground (arith, request_at-lt k ps p)
  ]

  pub request_at-append :
      (before after : List (Phase F)) (p : Phase F)
      → request_at (length after) (before ++ p ∷ after) ≡ some p
  unfolding request_at
  request_at-append [] after p = ground arith
  request_at-append (q ∷ before) after p =
      ground (arith, length-append before (p ∷ after), request_at-append before after p)

  -- Replacing one request leaves the others.
  pub request_at-others :
      (k : ℕ) (before after : List (Phase F)) (p q : Phase F)
      → length after ≢ k
      → request_at k (before ++ q ∷ after) ≡ request_at k (before ++ p ∷ after)
  unfolding request_at
  request_at-others k [] after p q h = ground arith
  request_at-others k (r ∷ before) after p q h = ground (
    arith,
    length-append before (p ∷ after),
    length-append before (q ∷ after),
    request_at-others k before after p q h,
  )
