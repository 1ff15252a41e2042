-- ===== src/Startup/Run.antt =====
-- `buildTLSConfig`, `run` and `main` of cred-rotation-api/main.go.
-- The renewer of the token and the listener run beside the rest. What the renewer does until the
-- context ends stands behind the start of the server; its report is logged and ends the context, as a
-- signal does. `seven_tenths` is that of Vault/Login.
pub mod Starts
pub mod Exits
use Prim.Native.String.{◌++◌}
use vault_secrets_broker.Prelude.{
  ℕ, List, Option, String, ◌≡◌, refl, ap, ◌∙◌, inl, inr, none, some, [], true, ◌∷◌, ◌==◌, string_eq,
  if◌then◌else◌, arith,
}
use vault_secrets_broker.Prelude.Int.{ℤ, pos}
use vault_secrets_broker.Exec.{
  Error, err, panic, pure, attempt, msg, wrap, Result, Result-cases, ok, Exec, fail, lift, ◌>>=◌,
  ◌>>◌, context,
}
use vault_secrets_broker.Net.{World, Env, log, logged, record_event}
use vault_secrets_broker.Adapter.Registry.{Registry}
use vault_secrets_broker.Vault.{Base64, issue_pki_cert}
use vault_secrets_broker.Vault.Login.{
  Spire, ClientSetup, env_or, new_from_env, new, start_renewer, cancelled, reported,
}
use vault_secrets_broker.Vault.Certificates.{
  Tls, TlsConfig, require_and_verify_client_cert, version_tls13, load_ca_cert_pool,
  tls_config_from_issued_cert,
}
use vault_secrets_broker.Server.Listen.{Listener, listen_and_serve_tls}
use vault_secrets_broker.Server.Shutdown.{shutdown}
use vault_secrets_broker.Server.{Request}
use vault_secrets_broker.Server.Authz.{Handler, cert_authz}
use vault_secrets_broker.Server.Routes
use vault_secrets_broker.Server.Routes.{Server}
use vault_secrets_broker.Server.Shutdown.Laws.{NeverPanics}
use vault_secrets_broker.Startup.Drains.{load_registry-NeverPanics}
use vault_secrets_broker.Startup.{load_registry}

-- What `run` waits for with its server: the end of its context, where a signal comes after the renewer
-- of the token has gone so many rounds, or before it if a renewal fails first; or the end of listening.
pub data Awaited : Type 0 where
  context_ended : (rounds : ℕ) → Awaited
  listening_ended : Awaited

module _ (env : Env) (getenv : String → String) (read_file : String → Result String)
    (tls : Tls) where
  unfoldable pub build_tls_config : Exec World TlsConfig
  build_tls_config =
      if getenv "VAULT_SKIP_PKI" == "true"
      then (do
        log "WARN" "VAULT_SKIP_PKI=true: mTLS disabled — for development only" [] none
        fail (
            msg
              "VAULT_SKIP_PKI set but full TLS bypass not implemented; remove the flag and run phase2-setup.sh"))
      else (do
        let ca_path = env_or getenv "VAULT_CACERT" "vault/certs/internal-ca.crt"
        ca_pool ←
            context (wrap ("load CA cert pool from " ++ ca_path))
              (lift (load_ca_cert_pool read_file tls ca_path))
        let common_name = env_or getenv "TLS_COMMON_NAME" "cred-rotation-api.internal"
        cert ←
            context (wrap "issue PKI server cert")
              (issue_pki_cert env "internal-mtls-server" common_name [])
        log "INFO" "PKI server certificate issued" (("common_name", common_name) ∷ []) none
        context (wrap "build TLS config from issued cert")
            (lift (tls_config_from_issued_cert tls cert ca_pool)))

  module _ (base64 : Base64) (spire : Spire) (setup : ClientSetup) where
    -- the configuration that `run` gives to `server.New`
    unfoldable pub server_config : TlsConfig → Registry → Routes.Config
    server_config tls_config registry = record {
      addr = env_or getenv "LISTEN_ADDR" ":8443";
      tls_config = some tls_config;
      registry = some registry;
      vault_client = some tt;
      transit_key_name = env_or getenv "VAULT_TRANSIT_KEY" "cred-rotation-key";
      cert_allowlist = [];
      max_concurrent_requests = pos 0;
    }

    -- `run` up to the server
    unfoldable pub boot : Exec World Server
    boot = do
      let cfg = new_from_env getenv
      context (wrap "vault client") (new env spire setup cfg)
      log "INFO" "authenticated to Vault" (("addr", cfg.address) ∷ []) none
      registry ←
          load_registry env base64 (env_or getenv "VAULT_TRANSIT_KEY" "cred-rotation-key")
            tls.append_certs
      log "INFO" "adapters registered" [] none
      tls_config ← context (wrap "build TLS config") build_tls_config
      context (wrap "build server") (lift (Routes.new (server_config tls_config registry)))

    -- `run`: the server listens until a signal comes or listening ends. `order` is the order in which
    -- Shutdown finds the adapters.
    -- The goroutine of StartRenewer, with the callback that it is given.
    unfoldable pub keep_renewing : (ℤ → ℤ) → (rounds : ℕ) → Exec World Unit
    keep_renewing seven_tenths rounds = do
      ended ← start_renewer env spire seven_tenths rounds (new_from_env getenv)
      elim ended [
        | none ↦ pure tt
        | some cancelled ↦ pure tt
        | some (reported e) ↦
            log "ERROR" "SPIFFE token renewal failed — initiating shutdown" [] (some e)
      ]

    unfoldable pub run :
        Listener
        → (ℤ → ℤ)
        → Awaited
        → (http_shutdown : Option Error) → (order : List String) → Exec World Unit
    run listener seven_tenths awaited http_shutdown order = do
      s ← boot
      elim awaited [
        | context_ended rounds ↦ do
          keep_renewing seven_tenths rounds
          log "INFO" "shutdown signal received" [] none
          shutdown http_shutdown s.handlers.registry order
        | listening_ended ↦ context (wrap "server") (listen_and_serve_tls listener s)
      ]

    -- The exit code of the program.
    unfoldable pub main :
        Listener
        → (ℤ → ℤ)
        → Awaited
        → (http_shutdown : Option Error) → (order : List String) → Exec World ℕ
    main listener seven_tenths awaited http_shutdown order = do
      r ← attempt (run listener seven_tenths awaited http_shutdown order)
      elim r [
        | ok _ ↦ pure 0
        | err e ↦ do log "ERROR" "startup failed" [] (some e); pure 1
        | panic p ↦ lift (panic p)
      ]

    -- The certificate authorities of the clients are those of the CA file.
    abbrev pub ClientsVerified : TlsConfig → Type 0
    ClientsVerified c =
        (c.client_auth ≡ require_and_verify_client_cert)
        × (read_file (env_or getenv "VAULT_CACERT" "vault/certs/internal-ca.crt") ≡ ok c.client_cas)
        × (tls.append_certs c.client_cas ≡ true)
        × (c.min_version ≡ version_tls13)

    build_tls_config-mutual :
        (w : World) (c : TlsConfig) → (build_tls_config w).0 ≡ ok c → ClientsVerified c
    unfolding build_tls_config tls_config_from_issued_cert load_ca_cert_pool
    build_tls_config-mutual w c e =
        elim (Result-cases
          (read_file (env_or getenv "VAULT_CACERT" "vault/certs/internal-ca.crt"))) [
            | inl (pem, f) ↦ ground arith
            | inr x ↦ absurd (ground arith)
          ]

    new-server_config :
        (c : TlsConfig) (registry : Registry) (s : Server)
        → Routes.new (server_config c registry) ≡ ok s
        → (s.allowlist ≡ [])
          × (s.limit ≡ 100)
          × (s.tls_config ≡ c)
          × (s.handlers.registry ≡ registry)
    unfolding server_config Routes.new
    new-server_config c registry s e = ground arith

    boot-ok :
        (w : World) (s : Server)
        → (boot w).0 ≡ ok s
        → (u : World) × (c : TlsConfig) × (registry : Registry) × ((build_tls_config u).0 ≡ ok c)
          × (Routes.new (server_config c registry) ≡ ok s)
          × (v : World) × ((load_registry env base64
                (env_or getenv "VAULT_TRANSIT_KEY" "cred-rotation-key")
                tls.append_certs
                v).0
              ≡ ok registry)
    unfolding boot
    boot-ok w s e =
        let cfg = new_from_env getenv in
        let m0 = new env spire setup cfg w in
        let u =
          record_event (logged "INFO" "authenticated to Vault" (("addr", cfg.address) ∷ []) none)
            m0.1 in
        let m1 =
          load_registry env base64 (env_or getenv "VAULT_TRANSIT_KEY" "cred-rotation-key")
            tls.append_certs u in
        let v = record_event (logged "INFO" "adapters registered" [] none) m1.1 in
        elim (Result-cases m0.0) [
          | inl (a0, e0) ↦ elim (Result-cases m1.0) [
            | inl (registry, e1) ↦ elim (Result-cases (build_tls_config v).0) [
              | inl (c, e2) ↦ (v, c, registry, e2, ground arith, u, e1)
              | inr x ↦ absurd (ground arith)
            ]
            | inr x ↦ absurd (ground arith)
          ]
          | inr x ↦ absurd (ground arith)
        ]

    -- No `Drain` of the adapters that the program starts with panics.
    pub boot-NeverPanics :
        (w : World) (s : Server) → (boot w).0 ≡ ok s → NeverPanics s.handlers.registry
    boot-NeverPanics w s e =
        let (u, c, registry, built, made, v, loaded) = boot-ok w s e in
        let (none_listed, limit, same, held) = new-server_config c registry s made in
        rw held (
          load_registry-NeverPanics env base64
            (env_or getenv "VAULT_TRANSIT_KEY" "cred-rotation-key") tls.append_certs v registry
            loaded)

    -- The server that the program starts admits 100 requests at a time, and has no allow-list: every
    -- request is handled, whatever Common Name the client's certificate has.
    pub boot-unrestricted :
        (w : World) (s : Server)
        → (boot w).0 ≡ ok s
        → (s.limit ≡ 100)
          × ((next : Handler) (r : Request) (u : World)
              → cert_authz s.allowlist next r u ≡ next r u)
    boot-unrestricted w s e =
        let (u, c, registry, built, made, v, loaded) = boot-ok w s e in
        let (none_listed, limit, same, held) = new-server_config c registry s made in
        (
          limit,
          λ next r v. ap (λ l. cert_authz l next r v) none_listed ∙ (unfold cert_authz in refl),
        )

    -- The server that the program starts demands a client certificate that verifies against the CA
    -- pool, over TLS 1.3 or later; the pool is what the file holds that VAULT_CACERT names, or the
    -- default file, and that file has certificates. No setting of the environment starts it without.
    pub boot-mutual_tls :
        (w : World) (s : Server)
        → (boot w).0 ≡ ok s
        → (s.tls_config.client_auth ≡ require_and_verify_client_cert)
          × (read_file (env_or getenv "VAULT_CACERT" "vault/certs/internal-ca.crt")
              ≡ ok s.tls_config.client_cas)
          × (tls.append_certs s.tls_config.client_cas ≡ true)
          × (s.tls_config.min_version ≡ version_tls13)
    boot-mutual_tls w s e =
        let (u, c, registry, built, made, v, loaded) = boot-ok w s e in
        let (none_listed, limit, same, held) = new-server_config c registry s made in
        rw same (build_tls_config-mutual u c built)
