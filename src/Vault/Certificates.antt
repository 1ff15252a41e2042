-- ===== src/Vault/Certificates.antt =====
-- LoadCACertPool and TLSConfigFromIssuedCert of cred-rotation-api/vault/client.go. crypto/x509 and
-- crypto/tls are the parameter `Tls`; `read_file` is os.ReadFile of a path as filepath.Clean has it.
use vault_secrets_broker.Prelude.{ℕ, String, Bool, Option, none, some, if◌then◌else◌}
use vault_secrets_broker.Exec.{Error, msg, wrap, Result, ok, err, panic}
use vault_secrets_broker.Vault.{IssuedCert}

-- Whether a text holds certificates, and the error of a key pair.
pub record Tls : Type 0 where
  pub append_certs : String → Bool
  pub key_pair : (certificate key : String) → Option Error

pub data ClientAuth : Type 0 where
  no_client_cert : ClientAuth
  require_and_verify_client_cert : ClientAuth

-- `*tls.Config`, as far as the program sets it; a pool is the text that its certificates come from.
pub record TlsConfig : Type 0 where
  pub certificate : String × String
  pub client_cas : String
  pub client_auth : ClientAuth
  pub min_version : ℕ

-- tls.VersionTLS13
abbrev pub version_tls13 : ℕ
version_tls13 = 772

unfoldable pub load_ca_cert_pool :
    (read_file : String → Result String) → Tls → (ca_path : String) → Result String
load_ca_cert_pool read_file tls ca_path = elim (read_file ca_path) [
  | ok pem ↦
      if tls.append_certs pem then ok pem else err (msg "load CA cert: no valid PEM blocks found")
  | err e ↦ err (wrap "load CA cert" e)
  | panic p ↦ panic p
]

unfoldable pub tls_config_from_issued_cert :
    Tls → IssuedCert → (ca_pool : String) → Result TlsConfig
tls_config_from_issued_cert tls cert ca_pool =
    elim (tls.key_pair cert.certificate cert.private_key) [
      | some e ↦ err (wrap "parse server cert/key" e)
      | none ↦ ok (record {
        certificate = (cert.certificate, cert.private_key);
        client_cas = ca_pool;
        client_auth = require_and_verify_client_cert;
        min_version = version_tls13;
      })
    ]
