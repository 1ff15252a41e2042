-- ===== src/Server/Routes.antt =====
-- `New` of cred-rotation-api/server/server.go: the checks of the configuration, the routes, and the
-- handlers around them. `http.ServeMux` takes the first pattern whose method and path fit, where the
-- pattern "GET" fits HEAD too; what it answers by itself where no pattern fits is `unmatched`.
pub mod Laws
use vault_secrets_broker.Prelude.{
  ℕ, zero, String, Bool, true, false, ◌&&◌, ◌||◌, Option, none, some, List, [], ◌∷◌, ◌==◌, nat_eq,
  string_eq, if◌then◌else◌, leb,
}
use vault_secrets_broker.Prelude.Int.{ℤ, pos, negsuc}
use vault_secrets_broker.Exec.{msg, Result, ok, err}
use vault_secrets_broker.Net.{Env}
use vault_secrets_broker.Adapter.Registry.{Registry}
use vault_secrets_broker.Vault.{Base64}
use vault_secrets_broker.Vault.Certificates.{TlsConfig}
use vault_secrets_broker.Server.{Request, Response}
use vault_secrets_broker.Server.Handlers
use vault_secrets_broker.Server.Handlers.{Handlers}
use vault_secrets_broker.Server.Authz.{Handler, Allowlist}

abbrev pub default_max_concurrency : ℕ
default_max_concurrency = 100

-- `none` where a pointer is nil. The Vault client is not looked into.
pub record Config : Type 0 where
  pub addr : String
  pub tls_config : Option TlsConfig
  pub registry : Option Registry
  pub vault_client : Option (Unit {0})
  pub transit_key_name : String
  pub cert_allowlist : Allowlist
  pub max_concurrent_requests : ℤ

-- What `New` builds its chain of handlers from.
pub record Server : Type 0 where
  pub addr : String
  pub tls_config : TlsConfig
  pub handlers : Handlers
  pub limit : ℕ
  pub allowlist : Allowlist

abbrev limit_of : ℤ → ℕ
limit_of (pos zero) = default_max_concurrency
limit_of (pos n) = n
limit_of (negsuc n) = default_max_concurrency

abbrev require_registry : Config → TlsConfig → Option Registry → Result Server
require_registry cfg tls_config none = err (msg "server: Registry is required")
require_registry cfg tls_config (some registry) = elim cfg.vault_client [
  | none ↦ err (msg "server: VaultClient is required")
  | some _ ↦
      if cfg.transit_key_name == ""
      then err (msg "server: TransitKeyName is required")
      else ok (record {
        addr = cfg.addr;
        tls_config = tls_config;
        handlers = record { registry = registry; transit_key_name = cfg.transit_key_name };
        limit = limit_of cfg.max_concurrent_requests;
        allowlist = cfg.cert_allowlist;
      })
]

unfoldable pub new : Config → Result Server
new cfg = elim cfg.tls_config [
  | none ↦ err (msg "server: TLSConfig is required")
  | some tls_config ↦ require_registry cfg tls_config cfg.registry
]

module _ (env : Env) (base64 : Base64) (unmatched : Handler) where
  unfoldable pub mux : Handlers → Handler
  mux h r =
      if r.path == "/v1/credentials/rotate" && r.method == "POST"
      then Handlers.rotate env base64 h r
      else if r.path == "/v1/credentials/revoke" && r.method == "POST"
      then Handlers.revoke env base64 h r
      else if r.path == "/v1/credentials/status" && (r.method == "GET" || r.method == "HEAD")
      then Handlers.status env base64 h r
      else if r.path == "/healthz" && (r.method == "GET" || r.method == "HEAD")
      then Handlers.health r
      else unmatched r
