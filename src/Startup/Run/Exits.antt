-- ===== src/Startup/Run/Exits.antt =====
-- The exit code of the program.
use vault_secrets_broker.Prelude.{
  ℕ, String, ◌≡◌, ◌≢◌, refl, ◌↔◌, inl, inr, Option, none, List, [], arith,
}
use vault_secrets_broker.Exec.{Error, Result, Result-cases, ok}
use vault_secrets_broker.Net.{World, Env, logged, record_event}
use vault_secrets_broker.Vault.{Base64}
use vault_secrets_broker.Vault.Login.{Spire, ClientSetup, new_from_env}
use vault_secrets_broker.Vault.Login.Rounds.{Answers, Positive, start_renewer-ok}
use vault_secrets_broker.Prelude.Int.{ℤ}
use vault_secrets_broker.Vault.Certificates.{Tls}
use vault_secrets_broker.Server.Listen.{Listener, listen_and_serve_tls}
use vault_secrets_broker.Server.Shutdown.Laws.{shutdown-eq-ok_iff}
use vault_secrets_broker.Server.Routes.{Server}
use vault_secrets_broker.Startup.Run.{
  boot, boot-NeverPanics, run, main, Awaited, context_ended, keep_renewing, listening_ended,
}

module _ (env : Env) (getenv : String → String) (read_file : String → Result String) (tls : Tls)
    (base64 : Base64) (spire : Spire) (setup : ClientSetup) (listener : Listener)
    (seven_tenths : ℤ → ℤ) where
  main-eq-0_iff :
      (awaited : Awaited) (http_shutdown : Option Error) (order : List String) (w : World)
      → ((main env getenv read_file tls base64 spire setup listener seven_tenths awaited
            http_shutdown order w).0
          ≡ ok 0)
        ↔ ((run env getenv read_file tls base64 spire setup listener seven_tenths awaited
              http_shutdown order w).0
            ≡ ok tt)
  unfolding main
  main-eq-0_iff awaited http_shutdown order w =
      let m =
        run env getenv read_file tls base64 spire setup listener seven_tenths awaited http_shutdown
          order w in
      elim (Result-cases m.0) [
        | inl (x, e) ↦ (λ f. e, λ f. ground arith)
        | inr (inl (x, e)) ↦ (λ f. absurd (ground arith), λ f. absurd (ground arith))
        | inr (inr (p, e)) ↦ (λ f. absurd (ground arith), λ f. absurd (ground arith))
      ]

  keep_renewing-ok :
      Answers env spire seven_tenths
      → Positive env spire seven_tenths
      → (rounds : ℕ) (w : World)
      → (keep_renewing env getenv read_file tls base64 spire setup seven_tenths rounds w).0 ≡ ok tt
  unfolding keep_renewing
  keep_renewing-ok answers positive rounds w =
      let cfg = new_from_env getenv in
      let (ended, e) = start_renewer-ok env spire seven_tenths cfg answers positive rounds w in
      ground arith

  run-context_ended :
      Answers env spire seven_tenths
      → Positive env spire seven_tenths
      → (rounds : ℕ) (http_shutdown : Option Error) (order : List String) (w : World) (s : Server)
      → (boot env getenv read_file tls base64 spire setup w).0 ≡ ok s
      → ((run env getenv read_file tls base64 spire setup listener seven_tenths
            (context_ended rounds)
            http_shutdown
            order
            w).0
          ≡ ok tt)
        ↔ (http_shutdown ≡ none)
  unfolding run
  run-context_ended answers positive rounds http_shutdown order w s e =
      let v = (boot env getenv read_file tls base64 spire setup w).1 in
      let m = keep_renewing env getenv read_file tls base64 spire setup seven_tenths rounds v in
      let u = record_event (logged "INFO" "shutdown signal received" [] none) m.1 in
      rw (e, keep_renewing-ok answers positive rounds v)
        (shutdown-eq-ok_iff s.handlers.registry
          (boot-NeverPanics env getenv read_file tls base64 spire setup w s e) http_shutdown order
          u)

  -- The end of listening is an error always.
  run-listening_ended :
      (http_shutdown : Option Error) (order : List String) (w : World)
      → (run env getenv read_file tls base64 spire setup listener seven_tenths listening_ended
          http_shutdown order w).0
        ≢ ok tt
  unfolding run listen_and_serve_tls
  run-listening_ended http_shutdown order w f =
      let m = boot env getenv read_file tls base64 spire setup w in
      elim (Result-cases m.0) [
        | inl (s, e) ↦ elim (Result-cases (listener.listen m.1.trace s.addr s.tls_config)) [
          | inl (a, g) ↦ absurd (ground arith)
          | inr x ↦ absurd (ground arith)
        ]
        | inr x ↦ absurd (ground arith)
      ]

  run-unstarted :
      (awaited : Awaited) (http_shutdown : Option Error) (order : List String) (w : World)
      → (run env getenv read_file tls base64 spire setup listener seven_tenths awaited http_shutdown
          order w).0
        ≡ ok tt
      → (s : Server) × ((boot env getenv read_file tls base64 spire setup w).0 ≡ ok s)
  unfolding run
  run-unstarted awaited http_shutdown order w f =
      elim (Result-cases (boot env getenv read_file tls base64 spire setup w).0) [
        | inl x ↦ x
        | inr x ↦ absurd (ground arith)
      ]

  -- If the SPIRE workload API gives an answer or an error, and seven tenths of two nanoseconds or more
  -- are positive: the program exits with 0 exactly when it has started, its context has ended (by a
  -- signal, or by a renewal of the Vault token that failed), and the HTTP server has shut down:
  -- whatever the adapters' clean-up does, and in whatever order it is waited for.
  pub main-exits :
      Answers env spire seven_tenths
      → Positive env spire seven_tenths
      → (awaited : Awaited) (http_shutdown : Option Error) (order : List String) (w : World)
      → ((main env getenv read_file tls base64 spire setup listener seven_tenths awaited
            http_shutdown order w).0
          ≡ ok 0)
        ↔ (((s : Server) × ((boot env getenv read_file tls base64 spire setup w).0 ≡ ok s))
            × (((rounds : ℕ) × (awaited ≡ context_ended rounds)) × (http_shutdown ≡ none)))
  main-exits answers positive (context_ended rounds) http_shutdown order w =
      let ended = context_ended rounds in
      let (to_run, from_run) = main-eq-0_iff ended http_shutdown order w in
      (
        λ e.
            let (s, started) = run-unstarted ended http_shutdown order w (to_run e) in
            let (shut, run) =
              run-context_ended answers positive rounds http_shutdown order w s started in
            ((s, started), ((rounds, refl), shut (to_run e))),
        λ h.
            from_run (
              (run-context_ended answers positive rounds http_shutdown order w h.0.0 h.0.1).1
                h.1.1),
      )
  main-exits answers positive listening_ended http_shutdown order w =
      let (to_run, from_run) = main-eq-0_iff listening_ended http_shutdown order w in
      (λ e. absurd (run-listening_ended http_shutdown order w (to_run e)), λ h. absurd (cc h.1.0.1))
