-- ===== src/Server/Authz.antt =====
-- `certAuthz`, `clientCertIdentity` and `requestLogger` of cred-rotation-api/server/server.go.
pub mod Laws
use Prim.Native.String.{◌++◌}
use vault_secrets_broker.Prelude.{
  ℕ, String, Bool, true, false, ◌||◌, Option, none, some, List, [], ◌∷◌, ◌==◌, string_eq,
  if◌then◌else◌, lookup, any,
}
use vault_secrets_broker.Prelude.Int.{pos}
use vault_secrets_broker.Prelude.Decimal.{format_int}
use vault_secrets_broker.Exec.{Result, ok, err, panic, Exec, pure, ◌>>=◌, ◌>>◌}
use vault_secrets_broker.Net.{World, Event, logged, record_event, log}
use vault_secrets_broker.Server.{Request, Response, problem}

-- The Common Name; the serial number goes to the log alone and is not modelled.
unfoldable pub client_cert_cn : Request → String
client_cert_cn r = elim r.cert_cn [ none ↦ "none" | some cn ↦ cn ]

abbrev pub Handler : Type 0
Handler = Request → Exec World Response

abbrev pub Allowlist : Type 0
Allowlist = List (String × List String)

abbrev pub key_of : Request → String
key_of r = r.method ++ " " ++ r.path

abbrev pub forbidden : Response
forbidden = record { code = 403; answer = problem "forbidden" }

abbrev pub denied : Handler
denied r = do
  log "WARN" "cert authz denied" (("path", r.path) ∷ ("cert_cn", client_cert_cn r) ∷ []) none
  pure forbidden

-- the loop over the allowed names
unfoldable pub is_listed : String → List String → Bool
is_listed cn [] = false
is_listed cn (a ∷ as') = if a == cn then true else is_listed cn as'

unfoldable pub cert_authz : Allowlist → Handler → Handler
cert_authz [] next r = next r
cert_authz (e ∷ es) next r = elim (lookup (key_of r) (e ∷ es)) [
  | none ↦ next r
  | some allowed ↦ if is_listed (client_cert_cn r) allowed then next r else denied r
]

-- The audit line. It has the remote address and the serial number too.
abbrev pub audit : Request → Response → Event
audit r resp =
    logged "INFO" "request"
      (("method", r.method)
        ∷ ("path", r.path)
        ∷ ("status", format_int (pos resp.code))
        ∷ ("cert_cn", client_cert_cn r)
        ∷ [])
      none

-- The line is written when `ServeHTTP` returns, and not when it panics.
unfoldable pub request_logger : Handler → Handler
request_logger next r = do resp ← next r; λ w. (ok resp, record_event (audit r resp) w)
