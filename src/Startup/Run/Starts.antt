-- ===== src/Startup/Run/Starts.antt =====
-- The start of the API where Vault, the certificates and the environment have what it needs.
use vault_secrets_broker.Prelude.{String, ◌≡◌, ◌≢◌, [], string_eq, none}
use vault_secrets_broker.Exec.{Result, ok}
use vault_secrets_broker.Net.{World, Env}
use vault_secrets_broker.Adapter.Registry
use vault_secrets_broker.Adapter.Registry.{Registry}
use vault_secrets_broker.Vault.{Base64, IssuedCert, issue_pki_cert}
use vault_secrets_broker.Vault.Login.{Spire, ClientSetup, env_or}
use vault_secrets_broker.Vault.Certificates.{
  Tls, TlsConfig, require_and_verify_client_cert, version_tls13, load_ca_cert_pool,
}
use vault_secrets_broker.Server.Routes
use vault_secrets_broker.Server.Routes.{Server}

module _ (getenv : String → String) where
  -- The name of the Transit key.
  abbrev pub key : String
  key = env_or getenv "VAULT_TRANSIT_KEY" "cred-rotation-key"

module _ (env : Env) (getenv : String → String) (read_file : String → Result String) (tls : Tls)
    (base64 : Base64) (spire : Spire) (setup : ClientSetup) where
  -- The files, the PKI engine and crypto/tls give a certificate for the server.
  abbrev pub Certified : (pem : String) → IssuedCert → Type 0
  Certified pem cert =
      (getenv "VAULT_SKIP_PKI" ≢ "true")
      × (load_ca_cert_pool read_file tls
            (env_or getenv "VAULT_CACERT" "vault/certs/internal-ca.crt")
          ≡ ok pem)
      × ((w : World)
          → (issue_pki_cert env "internal-mtls-server"
              (env_or getenv "TLS_COMMON_NAME" "cred-rotation-api.internal") [] w).0
            ≡ ok cert)
      × (tls.key_pair cert.certificate cert.private_key ≡ none)

  abbrev tls_config_of : (pem : String) → IssuedCert → TlsConfig
  tls_config_of pem cert = record {
    certificate = (cert.certificate, cert.private_key);
    client_cas = pem;
    client_auth = require_and_verify_client_cert;
    min_version = version_tls13;
  }
