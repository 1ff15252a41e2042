-- ===== src/AuthEngine/Equivalence.antt =====
-- The Auth0 client of the engine against the adapter of cred-rotation-api, of which it is a copy.
use vault_secrets_broker.Prelude.{String, ◌≡◌, arith}
use vault_secrets_broker.Exec.{decode, Result, ok, err, panic, Exec, pure, ◌>>=◌}
use vault_secrets_broker.Net.{World, Env, time_now}
use vault_secrets_broker.Adapter.{RotateRequest, Rotated}
use vault_secrets_broker.Auth0
use vault_secrets_broker.Auth0.{Auth0, cached}
use vault_secrets_broker.AuthEngine.Client.{
  Auth0Client, fetch_token, management_token, rotate_secret,
}

-- The adapter with the same credentials.
abbrev pub adapter_of : Auth0Client → Auth0
adapter_of c = record {
  domain = c.domain;
  client_id = c.client_id;
  client_secret = c.client_secret;
  audience = c.audience;
  base_url = c.base_url;
}

-- An outcome without the text of its error.
abbrev pub textless : {A : Type 0} → Result A × World → Result A × World
textless (ok a, w) = (ok a, w)
textless (err e, w) = (err decode, w)
textless (panic p, w) = (panic p, w)

module _ (env : Env) (c : Auth0Client) where
  fetch_token-textless :
      (w : World)
      → textless (fetch_token env c w) ≡ textless (Auth0.fetch_token env (adapter_of c) w)
  unfolding fetch_token Auth0.fetch_token
  fetch_token-textless w = ground arith

  management_token-textless :
      (w : World)
      → textless (management_token env c w) ≡ textless (Auth0.management_token env (adapter_of c) w)
  unfolding management_token Auth0.management_token
  management_token-textless w = ground (arith, fetch_token-textless (cached env (cached env w).1).1)

  -- The answer of the adapter to a rotation, from the new secret.
  abbrev pub stamped : RotateRequest → String → Exec World Rotated
  stamped req secret = do
    t ← time_now env
    pure (record {
      provider_id = req.provider_id;
      credential_id = req.provider_id;
      credential = secret;
      rotated_at = t;
    })

  -- A rotation by the adapter of cred-rotation-api does what rotateSecret of the engine's
  -- client does with the same credentials, followed by a look at the clock: the same result,
  -- the same requests and the same cache, but for the text of an error.
  pub rotate-rotate_secret :
      (req : RotateRequest) (w : World)
      → textless (Auth0.rotate env (adapter_of c) req w)
        ≡ textless ((rotate_secret env c req.provider_id >>= stamped req) w)
  unfolding rotate_secret Auth0.rotate
  rotate-rotate_secret req w = ground (arith, management_token-textless w)
