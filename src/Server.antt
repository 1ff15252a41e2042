-- ===== src/Server.antt =====
-- cred-rotation-api/server: the mTLS HTTP server, and the handlers of handlers.go.
-- A request is what `net/http` hands to a handler; a body that is read as a struct is a document.
pub mod Handlers
pub mod Authz
pub mod Limiter
pub mod Shutdown
pub mod Lifetime
pub mod Routes
pub mod Chain
pub mod Wire
pub mod Listen
use vault_secrets_broker.Prelude.{ℕ, String, Option, none, some, List}
use vault_secrets_broker.Json.{Payload}
use vault_secrets_broker.Exec
use vault_secrets_broker.Adapter.{RotateResponse, CredentialStatus}

-- `cert_cn` is there if the connection is TLS with a peer certificate; the query is decoded.
pub record Request : Type 0 where
  pub method : String
  pub path : String
  pub query : List (String × String)
  pub body : Payload
  pub cert_cn : Option String

-- The body of an answer: what a handler encodes.
pub data Answer : Type 0 where
  -- `{"error": …}` with a fixed text
  problem : String → Answer
  -- `{"error": …}` with a text before the text of an error
  problem_with : String → Exec.Error → Answer
  rotated : RotateResponse → Answer
  revoked : Answer
  checked : CredentialStatus → Answer
  healthy : Answer
  -- written by `net/http` itself
  plain : String → Answer

-- The status code, which is 200 where `WriteHeader` is not called, and the body.
pub record Response : Type 0 where
  pub code : ℕ
  pub answer : Answer
