-- ===== src/Vault/Login/Rounds.antt =====
-- What the renewer of the Vault token does in its rounds.
use vault_secrets_broker.Prelude.{
  ℕ, zero, suc, ◌<◌, List, ◌≢◌, String, ◌≡◌, ◌⊎◌, refl, inl, inr, true, arith, none, some, Option,
  ◌==◌, string_eq, Bool-cases,
}
use vault_secrets_broker.Prelude.Int.{ℤ, pos, ltb_ℤ}
use vault_secrets_broker.Exec.{Error, Exec, wrap, ok, err, panic, Result-cases}
use vault_secrets_broker.Net.{World, Env, Time, Event, waited, record_event}
use vault_secrets_broker.Vault.Login.Renewal.{renew_interval-positive}
use vault_secrets_broker.Vault.Login.{
  Config, Ended, cancelled, reported, renew, fetch_spiffe_jwt, login_jwt, spiffe_renewer,
  start_renewer, Spire, renew_interval,
}

module _ (env : Env) (spire : Spire) (seven_tenths : ℤ → ℤ) where
  -- The SPIRE workload API gives an answer or an error.
  abbrev pub Answers : Type 0
  Answers =
      (es : List Event) (socket audience p : String) → spire.fetch es socket audience ≢ panic p

  -- Seven tenths of two nanoseconds or more are positive.
  abbrev pub Positive : Type 0
  Positive = (t : ℤ) → ltb_ℤ (pos 1) t ≡ true → ltb_ℤ (pos 0) (seven_tenths t) ≡ true

  -- The renewer waits for the interval that it has found, which is positive.
  abbrev pub Waits : (w v : World) → Type 0
  Waits w v =
      (t : Time) × ((renew_interval env spire seven_tenths w).0 ≡ ok t)
      × (ltb_ℤ (pos 0) t ≡ true)
      × (v ≡ record_event (waited t) (renew_interval env spire seven_tenths w).1)

  login_jwt-no_panic :
      (mount_path role jwt : String) (w : World) (p : String)
      → (login_jwt env mount_path role jwt w).0 ≢ panic p
  unfolding login_jwt
  login_jwt-no_panic mount_path role jwt w p e = ground arith

  module _ (cfg : Config) where
    abbrev fetched : Exec World String
    fetched =
        fetch_spiffe_jwt env spire cfg.spiffe_socket cfg.spiffe_audience cfg.spiffe_trust_domain

    -- A JWT-SVID is fetched, and Vault accepts it for a login.
    abbrev pub Renews : (v u : World) → Type 0
    Renews v u =
        (jwt : String) × (v' : World) × (fetched v ≡ (ok jwt, v'))
        × (login_jwt env cfg.jwt_mount_path cfg.jwt_role jwt v' ≡ (ok tt, u))

    -- The fetch fails, or the login does.
    abbrev pub Fails : (v : World) → Error → (u : World) → Type 0
    Fails v e u =
        ((x : Error) × (fetched v ≡ (err x, u)) × (e ≡ wrap "SPIFFE renewer: fetch JWT-SVID" x))
        ⊎ ((jwt : String) × (v' : World) × (x : Error) × (fetched v ≡ (ok jwt, v'))
            × (login_jwt env cfg.jwt_mount_path cfg.jwt_role jwt v' ≡ (err x, u))
            × (e ≡ wrap "SPIFFE renewer: re-auth to Vault" x))

    -- So many rounds: in each a wait, and then a renewal that succeeds.
    unfoldable pub Renewed : ℕ → (w u : World) → Type 0
    Renewed zero w u = w ≡ u
    Renewed (suc n) w u = (v v' : World) × Waits w v × Renews v v' × Renewed n v' u

    fetched-no_panic : Answers → (v : World) (p : String) → (fetched v).0 ≢ panic p
    unfolding fetch_spiffe_jwt
    fetched-no_panic answers v p e =
        elim (Result-cases (spire.fetch v.trace cfg.spiffe_socket cfg.spiffe_audience)) [
          | inl (svid, f) ↦ ground arith
          | inr (inl (x, f)) ↦ ground arith
          | inr (inr (q, f)) ↦ answers v.trace cfg.spiffe_socket cfg.spiffe_audience q f
        ]

    renew-cases :
        Answers
        → (v : World)
        → ((u : World) × Renews v u × (renew env spire seven_tenths cfg v ≡ (ok tt, u)))
          ⊎ ((e : Error) × (u : World) × Fails v e u
              × (renew env spire seven_tenths cfg v ≡ (err e, u)))
    unfolding renew
    renew-cases answers v = elim (Result-cases (fetched v).0) [
      | inl (jwt, f) ↦
          let m = login_jwt env cfg.jwt_mount_path cfg.jwt_role jwt (fetched v).1 in
          elim (Result-cases m.0) [
            | inl (x, g) ↦ inl (m.1, (jwt, (fetched v).1, ground arith, ground arith), ground arith)
            | inr (inl (x, g)) ↦ inr (
              wrap "SPIFFE renewer: re-auth to Vault" x,
              m.1,
              inr (jwt, (fetched v).1, x, ground arith, ground arith, refl),
              ground arith,
            )
            | inr (inr (p, g)) ↦
                absurd (login_jwt-no_panic cfg.jwt_mount_path cfg.jwt_role jwt (fetched v).1 p g)
          ]
      | inr (inl (x, f)) ↦ inr (
        wrap "SPIFFE renewer: fetch JWT-SVID" x,
        (fetched v).1,
        inl (x, ground arith, refl),
        ground arith,
      )
      | inr (inr (p, f)) ↦ absurd (fetched-no_panic answers v p f)
    ]

    -- If the SPIRE workload API gives an answer or an error, and seven tenths of two nanoseconds or
    -- more are positive: a renewer whose context ends in the wait after so many rounds has waited in
    -- each for the interval that it found, never for none, and has then fetched a JWT-SVID and logged
    -- in with it; or one of these rounds was the first whose fetch or login failed, and the renewer
    -- ended there and reported that very error.
    pub spiffe_renewer-Renewed :
        Answers
        → Positive
        → (rounds : ℕ) (w : World)
        → ((u : World) × Renewed rounds w u
            × (spiffe_renewer env spire seven_tenths rounds cfg w
                ≡ (ok cancelled, (renew_interval env spire seven_tenths u).1)))
          ⊎ ((k : ℕ) × (k < rounds)
              × (u v v' : World) × (e : Error) × Renewed k w u
              × Waits u v
              × Fails v e v'
              × (spiffe_renewer env spire seven_tenths rounds cfg w ≡ (ok (reported e), v')))
    unfolding spiffe_renewer Renewed
    spiffe_renewer-Renewed answers positive zero w =
        let (t, e, p) = renew_interval-positive env spire seven_tenths positive w in
        inl (w, refl, ground arith)
    spiffe_renewer-Renewed answers positive (suc rounds) w =
        let (t, e, p) = renew_interval-positive env spire seven_tenths positive w in
        let v = record_event (waited t) (renew_interval env spire seven_tenths w).1 in
        elim (renew-cases answers v) [
          | inl (u, renews, f) ↦ elim (spiffe_renewer-Renewed answers positive rounds u) [
            | inl (u', renewed, g) ↦
                inl (u', (v, u, (t, e, p, refl), renews, renewed), ground arith)
            | inr (k, less, u', v1, v2, x, renewed, waits, fails, g) ↦ inr (
              suc k,
              omega arith,
              u',
              v1,
              v2,
              x,
              (v, u, (t, e, p, refl), renews, renewed),
              waits,
              fails,
              ground arith,
            )
          ]
          | inr (x, u, fails, f) ↦
              inr (0, omega arith, w, v, u, x, refl, (t, e, p, refl), fails, ground arith)
        ]

    pub start_renewer-ok :
        Answers
        → Positive
        → (rounds : ℕ) (w : World)
        → (ended : Option Ended) × ((start_renewer env spire seven_tenths rounds cfg w).0
            ≡ ok ended)
    unfolding start_renewer
    start_renewer-ok answers positive rounds w = elim (Bool-cases (cfg.spiffe_socket == "")) [
      | inl f ↦ (none, ground arith)
      | inr f ↦ elim (spiffe_renewer-Renewed answers positive rounds w) [
        | inl (u, renewed, g) ↦ (some cancelled, ground arith)
        | inr (k, less, u, v, v', e, renewed, waits, fails, g) ↦ (some (reported e), ground arith)
      ]
    ]
