-- ===== src/Tests/Secrets.antt =====
-- The Vault client on small examples.
use vault_secrets_broker.Prelude.{◌≢◌, ℕ, ◌<◌, ◌⊎◌, some, String, ◌≡◌, refl, none, arith, string_eq}
use vault_secrets_broker.Prelude.Text
use vault_secrets_broker.Json.{Fields, field, str, end}
use vault_secrets_broker.Exec.{ok, Error}
use vault_secrets_broker.Net.{Env, World, Secret, start, nil_secret}
use vault_secrets_broker.Vault.{transit_encrypt}
use vault_secrets_broker.Vault.Socket.{validate_spiffe_socket}
use vault_secrets_broker.Vault.{lookup_field, transit_decrypt}
use vault_secrets_broker.Vault.Transit.{Faithful, Decodes, transit_decrypt-encrypt}
use vault_secrets_broker.Vault.Login.Rounds.{
  Positive, Waits, Fails, Renewed, spiffe_renewer-Renewed,
}
use vault_secrets_broker.Vault.Socket.Laws.{Allowed}
use vault_secrets_broker.Vault.Login.{Svid, cancelled, reported, renew_interval, spiffe_renewer}
use vault_secrets_broker.Net.{VaultReply, secret}
use vault_secrets_broker.Vault.Login.{
  Config, Spire, new_from_env, login, login_jwt, fetch_spiffe_jwt,
}
use vault_secrets_broker.Vault.Login.Laws.{jwt_login, login-spiffe}
use vault_secrets_broker.Prelude.Int.{negsuc, pos}
use vault_secrets_broker.Tests.{seven_tenths, env_of, encrypted, logged_in, key_body, plain64}

abbrev env : Env
env = env_of 201 key_body encrypted

-- A SPIRE agent that answers with one identity.
abbrev spire : Spire
spire = record {
  connect = λ t socket. none;
  fetch = λ t socket audience. ok (record { marshal = "jwt"; trust_domain = "example.org" });
}

abbrev login_config : Config
login_config = record (new_from_env (λ key. "")) {
  spiffe_socket = "unix:///run/spire.sock";
  spiffe_audience = "vault";
  spiffe_trust_domain = "example.org";
}

abbrev vault : Env
vault = env_of 200 key_body logged_in

login-spiffe_example :
    Allowed "unix:///run/spire.sock"
    × (login_config.spiffe_audience ≢ "")
    × (svid : Svid) × (spire.fetch start.trace "unix:///run/spire.sock" "vault" ≡ ok svid)
    × ((login_config.spiffe_trust_domain ≢ "") → svid.trust_domain ≡ "example.org")
    × (s : Secret) × (token : String) × (vault.vault_write start.trace start.token "auth/jwt/login"
          (jwt_login "" svid.marshal)
        ≡ secret s)
    × (s.auth ≡ some token)
    × ((login vault spire login_config start).1.token ≡ token)
unfolding login validate_spiffe_socket fetch_spiffe_jwt login_jwt new_from_env Text.strip_prefix
    Text.has_dots
login-spiffe_example = login-spiffe vault spire login_config start refl (λ e. cc) refl

-- A Vault whose encryption keeps texts as they are.
abbrev echo : Fields → VaultReply
echo (field k (str x) end) =
    secret
      (record { content = field "ciphertext" (str x) (field "plaintext" (str x) end); auth = none })
echo _ = nil_secret

abbrev echo_vault : Env
echo_vault = record env { vault_write = λ t token path d. echo d }

plain64-Decodes : Decodes echo_vault plain64 "creds"
plain64-Decodes s = refl

echo_vault-Faithful : Faithful echo_vault plain64 "creds"
unfolding lookup_field
echo_vault-Faithful t u token token' x ct s s' e f g = ground arith

transit_decrypt-encrypt_example :
    (transit_decrypt echo_vault plain64 "creds" "pd-1" start).0 ≡ ok "pd-1"
unfolding transit_encrypt
transit_decrypt-encrypt_example =
    transit_decrypt-encrypt echo_vault plain64 "creds" echo_vault-Faithful plain64-Decodes "pd-1"
      "pd-1" start start _ (λ e. cc) refl refl

seven_tenths-Positive : Positive vault spire seven_tenths
seven_tenths-Positive (pos n) e = ground arith
seven_tenths-Positive (negsuc n) e = absurd (ground arith)

spiffe_renewer-Renewed_example :
    ((u : World) × Renewed vault spire seven_tenths login_config 2 start u
      × (spiffe_renewer vault spire seven_tenths 2 login_config start
          ≡ (ok cancelled, (renew_interval vault spire seven_tenths u).1)))
    ⊎ ((k : ℕ) × (k < 2)
        × (u v v' : World) × (e : Error) × Renewed vault spire seven_tenths login_config k start u
        × Waits vault spire seven_tenths u v
        × Fails vault spire seven_tenths login_config v e v'
        × (spiffe_renewer vault spire seven_tenths 2 login_config start ≡ (ok (reported e), v')))
spiffe_renewer-Renewed_example =
    spiffe_renewer-Renewed vault spire seven_tenths login_config
      (λ es socket audience p e. ground arith) seven_tenths-Positive 2 start
