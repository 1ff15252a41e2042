-- ===== src/Adapter.antt =====
-- cred-rotation-api/adapter/adapter.go and drainer.go: the interface that every provider's adapter
-- implements, and the types that it shares with the server.
pub mod Registry
pub mod Shared
use vault_secrets_broker.Prelude.{String, Bool, Option, List}
use vault_secrets_broker.Exec.{Exec}
use vault_secrets_broker.Net.{Time, World}

pub record RotateRequest : Type 0 where
  pub provider_id : String
  pub meta : List (String × String)

pub record RotateResponse : Type 0 where
  pub provider_id : String
  pub encrypted_value : String
  pub rotated_at : Time

pub record RevokeRequest : Type 0 where
  pub provider_id : String
  pub credential_id : String

pub record CredentialStatus : Type 0 where
  pub provider_id : String
  pub credential_id : String
  pub active : Bool
  pub checked_at : Time

-- `Result` of adapter.go: the plaintext credential, for the server alone.
pub record Rotated : Type 0 where
  pub provider_id : String
  pub credential_id : String
  pub credential : String
  pub rotated_at : Time

-- `drain` is there if the adapter implements `Drainer` too.
pub record Adapter : Type 0 where
  pub name : String
  pub rotate : RotateRequest → Exec World Rotated
  pub revoke : RevokeRequest → Exec World Unit
  pub status : String → Exec World CredentialStatus
  pub drain : Option (Exec World Unit)
