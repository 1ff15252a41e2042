-- ===== src/Auth0/Cache.antt =====
-- The cache of the management token.
use vault_secrets_broker.Prelude.{String, ◌≡◌, ◌≢◌, ◌⊎◌, true, none, some, arith, eq_iff, string_eq}
use vault_secrets_broker.Exec.{Error, ok, err}
use vault_secrets_broker.Net.{World, Env, clock_read, record_event}
use vault_secrets_broker.Auth0.{Auth0, is_fresh, cached, fetch_token, management_token}

module _ (env : Env) (a : Auth0) where
  -- A token in the cache that is fresh is given back, and nothing is sent: the clock is read once.
  management_token-fresh :
      (w : World)
      → w.cache.mgmt_token ≢ ""
      → is_fresh w.cache.token_expiry (env.now w.trace) ≡ true
      → management_token env a w ≡ (ok w.cache.mgmt_token, record_event clock_read w)
  unfolding management_token cached
  management_token-fresh w h e = ground (arith, eq_iff w.cache.mgmt_token "")

  fetch_token-ok :
      (w : World) (token : String)
      → (fetch_token env a w).0 ≡ ok token
      → (token ≢ "") × ((fetch_token env a w).1.cache.mgmt_token ≡ token)
  unfolding fetch_token
  fetch_token-ok w token e = ground (arith, eq_iff token "")

  fetch_token-err :
      (w : World) (e : Error)
      → (fetch_token env a w).0 ≡ err e
      → (fetch_token env a w).1.cache ≡ w.cache
  unfolding fetch_token
  fetch_token-err w e f = ground arith

  cached-lem :
      (w : World)
      → ((cached env w).0 ≡ ok none)
        ⊎ (((cached env w).0 ≡ ok (some w.cache.mgmt_token)) × (w.cache.mgmt_token ≢ ""))
  unfolding cached
  cached-lem w = ground (arith, eq_iff w.cache.mgmt_token "")

  cached-cache : (w : World) → (cached env w).1.cache ≡ w.cache
  unfolding cached
  cached-cache w = ground arith

  -- A token that is given back is not empty, and is the one that the cache then holds.
  management_token-ok :
      (w : World) (token : String)
      → (management_token env a w).0 ≡ ok token
      → (token ≢ "") × ((management_token env a w).1.cache.mgmt_token ≡ token)
  unfolding management_token
  management_token-ok w token e = ground (
    arith,
    cached-lem w,
    cached-cache w,
    cached-lem (cached env w).1,
    cached-cache (cached env w).1,
    fetch_token-ok (cached env (cached env w).1).1 token,
  )

  -- A failure leaves the cache as it was.
  management_token-err :
      (w : World) (e : Error)
      → (management_token env a w).0 ≡ err e
      → (management_token env a w).1.cache ≡ w.cache
  unfolding management_token
  management_token-err w e f = ground (
    arith,
    cached-lem w,
    cached-cache w,
    cached-lem (cached env w).1,
    cached-cache (cached env w).1,
    fetch_token-err (cached env (cached env w).1).1 e,
  )
