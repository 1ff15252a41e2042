-- ===== src/Lib.antt =====
-- A model of vault-secrets-broker, a credential broker: an mTLS HTTP service that rotates the
-- credentials of third-party providers and hands the new ones out encrypted by Vault.
--
-- The parts and how they interact. cred-rotation-api/server takes a request through the audit line,
-- the concurrency limiter and the allow-list of Common Names to a handler; the handler finds the
-- provider's adapter in the registry of cred-rotation-api/adapter, calls it, and encrypts a new
-- credential by the client of cred-rotation-api/vault. The adapters talk to their providers over
-- HTTPS, and four of them delete the old credential in a goroutine that Shutdown waits for. Two Vault
-- plugins use it or do without it: vault-rest-engine asks the service for a rotation and decrypts
-- the credential, vault-auth0-engine talks to Auth0 itself and hands out leases.
--
-- The files.
--   Exec, Net, Json: Go's errors and panics, the outside world, and documents. An action is a
--     function from a World to a result and a World; a World is the trace of all that was sent and
--     asked for, the clean-up goroutines that are pending, the token of the Vault client and the
--     cache of the Auth0 client. What comes back is a function of the trace, an Env: net/http, the
--     Vault API, the SPIRE workload API, the clock, random numbers and semaphores behave in any way
--     whatever. A deadline shows as a refusal of what is waited for.
--   Adapter, Adapter/Registry: adapter.go, drainer.go and registry.go (Register is register, Get is
--     get, Names is names).
--   Adapter/Shared: sanitizeForLog (sanitize_for_log), randomHex (random_hex) and the wait in Drain
--     (drain_within), which each adapter package has a copy of. Adapter/Shared/Contract says what a
--     rotation with a clean-up promises, and proves it of the form that Rotate has; Accounts and
--     OldCredential follow the old credential through the drain. Adapter/Shared/Provider is a provider
--     as its documentation describes it, for what Revoke, Status and a deletion mean there.
--   SonarQube, Splunk, Datadog, PagerDuty, GitHub, Auth0: the packages under
--     cred-rotation-api/adapter. Rotate is rotate, and rotate_held its part under the semaphore;
--     Revoke is revoke, Status check_status, Drain drain, `do` request; cleanup is the goroutine.
--     Splunk/Entries, Datadog/Keys, PagerDuty/Keys, GitHub/Documents: the documents they read and
--     write. Auth0/Sharing: managementToken with other calls between its two looks at the
--     cache, and Auth0/Sharing/Flight how many requests they send.
--   Vault, Vault/Socket, Vault/Login, Vault/Certificates: vault/client.go. The switch of New is login.
--   Server, Server/Handlers, Server/Authz, Server/Limiter, Server/Routes, Server/Listen,
--     Server/Shutdown, Server/Chain, Server/Lifetime: server/handlers.go and server/server.go; Chain
--     is the chain of handlers that New builds, Lifetime is Shutdown while requests and deletions
--     run. Server/Wire: the text of an answer.
--   Engine, Engine/Stored: what the two plugins take from Vault's SDK. A storage is any behaviour,
--     and what it holds is read off the events (last_stored).
--   AuthEngine, AuthEngine/Client, AuthEngine/Root, AuthEngine/Leases, AuthEngine/Paths:
--     plugins/vault-auth0-engine/backend. writeConfig is write_config, rotateRoot rotate_root,
--     rotateCreds rotate_creds, revokeCreds revoke_creds, checkStatus check_status; rotate_found,
--     rotate_application and the like are what a handler does after its tests.
--   RestEngine, RestEngine/Credentials, RestEngine/Paths: plugins/vault-rest-engine/backend, in the
--     same way. RestEngine/EndToEnd puts it together with the handler of the API.
--   Startup, Startup/Run: main.go. The loadXConfig functions are load_x_config, buildTLSConfig is
--     build_tls_config, and boot is run up to the server that it starts. keep_renewing is the
--     goroutine of StartRenewer with its callback, a failed renewal ending the context of run.
--   Chaos: chaos/mock_provider.go, the test server that injects faults, as a step relation.
--   Prelude: shared numbers, texts, lists and maps. Tests: examples of the properties.
--
-- Bounds and fuel. A drain counts the goroutines that end before its context does (deadline of
-- Env): the proofs take any number. The renewer of the Vault client takes the number of rounds
-- before its context ends (rounds): the proofs take any number, and say what each round did. Every other loop is structural. Durations wrap at 64 bits where the
-- source multiplies them (wrap_64).
--
-- Not modelled. The texts that Go's formatting makes of an error (an error is the tree of its
-- messages), the TLS handshake, certificates and the sockets; the framework of Vault's SDK under the
-- two plugins, and their main functions. Goroutines are interleaved in the limiter, in a drain, in a shutdown, in
-- the token cache of Auth0 (Auth0/Sharing) and in the mock provider; elsewhere a call runs to its end, and what the renewer of
-- the token does stands between the start of the server and its shutdown.
pub mod Prelude
pub mod Json
pub mod Exec
pub mod Net
pub mod Adapter
pub mod SonarQube
pub mod Splunk
pub mod Datadog
pub mod PagerDuty
pub mod GitHub
pub mod Auth0
pub mod Engine
pub mod AuthEngine
pub mod RestEngine
pub mod Chaos
pub mod Vault
pub mod Server
pub mod Startup
pub mod Tests
