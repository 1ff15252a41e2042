-- ===== src/Vault/Socket.antt =====
-- `validateSPIFFESocket` of cred-rotation-api/vault/client.go.
-- The length is that of the UTF-8 text in bytes, as `len` of a Go string is.
pub mod Laws
use Prim.Native.String.{len}
use vault_secrets_broker.Prelude.{ℕ, String, none, some, ltb, if◌then◌else◌}
use vault_secrets_broker.Prelude.Text
use vault_secrets_broker.Exec.{msg, named, Result, ok, err}

abbrev pub max_len : ℕ
max_len = 512

unfoldable pub validate_spiffe_socket : String → Result (Unit {0})
validate_spiffe_socket addr =
    if ltb max_len (len addr)
    then err (msg "SPIFFE: socket address too long (max 512 chars)")
    else elim (Text.strip_prefix "unix://" addr) [
      | some path ↦
          if Text.has_dots path
          then err (named "SPIFFE: socket path must not contain path traversal" addr)
          else ok tt
      | none ↦ elim (Text.strip_prefix "tcp://" addr) [
        | some _ ↦ ok tt
        | none ↦ err (named "SPIFFE: socket address must use unix:// or tcp:// scheme, got" addr)
      ]
    ]
