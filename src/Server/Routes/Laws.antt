-- ===== src/Server/Routes/Laws.antt =====
-- Which requests reach which handler.
use vault_secrets_broker.Prelude.{◌≡◌, ap, ◌∙◌, none, string_eq, lookup}
use vault_secrets_broker.Exec.{Exec}
use vault_secrets_broker.Net.{World, Env}
use vault_secrets_broker.Vault.{Base64}
use vault_secrets_broker.Server.{Request, Response}
use vault_secrets_broker.Server.Handlers
use vault_secrets_broker.Server.Handlers.{Handlers}
use vault_secrets_broker.Server.Authz.{Handler, Allowlist, cert_authz}
use vault_secrets_broker.Server.Authz.Laws.{cert_authz_open}
use vault_secrets_broker.Server.Routes.{mux}

module _ (env : Env) (base64 : Base64) (unmatched : Handler) (h : Handlers) where
  mux-head_status :
      (r : Request)
      → r.method ≡ "HEAD"
      → r.path ≡ "/v1/credentials/status"
      → mux env base64 unmatched h r ≡ Handlers.status env base64 h r
  unfolding mux
  mux-head_status r e f = rw (e, f)

  -- Where the allow-list has no entry for "HEAD /v1/credentials/status", a HEAD request to that path
  -- runs the status handler whatever the client's Common Name, also when
  -- "GET /v1/credentials/status" is restricted.
  pub head_bypasses_authz :
      (l : Allowlist) (r : Request) (w : World)
      → r.method ≡ "HEAD"
      → r.path ≡ "/v1/credentials/status"
      → lookup "HEAD /v1/credentials/status" l ≡ none
      → cert_authz l (mux env base64 unmatched h) r w ≡ Handlers.status env base64 h r w
  head_bypasses_authz l r w e f g =
      cert_authz_open l (mux env base64 unmatched h) r w (rw (e, f) g)
      ∙ ap (λ (m : Exec World Response). m w) (mux-head_status r e f)
