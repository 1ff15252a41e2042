-- ===== src/Server/Listen.antt =====
-- `ListenAndServeTLS` of cred-rotation-api/server/server.go. `Listener` stands for crypto/tls and
-- net/http; what `Serve` gives back is an error always.
use vault_secrets_broker.Prelude.{String, none, List, [], ◌∷◌}
use vault_secrets_broker.Exec.{Error, wrap, Result, Exec, fail, ◌>>=◌, ◌>>◌, context}
use vault_secrets_broker.Net.{World, Event, log}
use vault_secrets_broker.Vault.Certificates.{TlsConfig}
use vault_secrets_broker.Server.Routes.{Server}

pub record Listener : Type 0 where
  -- `tls.Listen`: the address of the listener, for `listenerAddr`
  pub listen : List Event → (addr : String) → TlsConfig → Result String
  pub serve : List Event → Error

unfoldable pub listen_and_serve_tls : Listener → Server → Exec World Unit
listen_and_serve_tls listener s = do
  addr ← context (wrap "server listen") (λ w. (listener.listen w.trace s.addr s.tls_config, w))
  log "INFO" "cred-rotation-api listening"
      (("addr", addr)
        ∷ ("tls_min_version", "TLS 1.3")
        ∷ ("client_auth", "RequireAndVerifyClientCert")
        ∷ [])
      none
  λ w. fail (listener.serve w.trace) w
