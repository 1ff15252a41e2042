-- ===== src/Server/Chain.antt =====
-- The chain of handlers of cred-rotation-api/server/server.go: the audit line, the limiter, the
-- allow-list, and the routes.
pub mod Barred
use vault_secrets_broker.Prelude.{ℕ, none, [], ◌∷◌, ltb, if◌then◌else◌}
use vault_secrets_broker.Exec.{Exec, pure, ◌>>=◌, ◌>>◌}
use vault_secrets_broker.Net.{World, Env, log}
use vault_secrets_broker.Vault.{Base64}
use vault_secrets_broker.Server.{Request, Response, problem}
use vault_secrets_broker.Server.Authz.{Handler, cert_authz, request_logger}
use vault_secrets_broker.Server.Routes.{Server, mux}

abbrev pub overloaded : Response
overloaded = record { code = 503; answer = problem "server overloaded, retry after 1s" }

-- What one request sees of `concurrencyLimiter`, where its `Add(1)` gives back `n`.
unfoldable pub concurrency_limiter : (limit n : ℕ) → Handler → Handler
concurrency_limiter limit n next r =
    if ltb limit n
    then (do
      log "WARN" "request rejected: concurrency limit reached" (("path", r.path) ∷ []) none
      pure overloaded)
    else next r

module _ (env : Env) (base64 : Base64) (unmatched : Handler) where
  unfoldable pub serve : Server → (n : ℕ) → Handler
  serve s n =
      request_logger (
        concurrency_limiter s.limit n
          (cert_authz s.allowlist (mux env base64 unmatched s.handlers)))
