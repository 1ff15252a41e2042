-- ===== src/Vault/Login/Laws.antt =====
-- Which credential a login uses, and which identities it accepts.
use vault_secrets_broker.Prelude.{
  String, ◌≡◌, ◌≢◌, ap, sym, ◌∙◌, some, ◌==◌, if◌then◌else◌, Option-cases, inl, inr, arith, eq_iff,
  string_eq,
}
use vault_secrets_broker.Exec.{Error, ok, err, Result-cases}
use vault_secrets_broker.Net.{World, Env, Secret, secret}
use vault_secrets_broker.Json.{Fields, end, field, str}
use vault_secrets_broker.Vault.Transit.{VaultReply-cases}
use vault_secrets_broker.Vault.Socket.Laws.{Allowed, validate_spiffe_socket-ok}
use vault_secrets_broker.Vault.Socket.{validate_spiffe_socket}
use vault_secrets_broker.Vault.Login.{Svid, Spire, Config, login_jwt, fetch_spiffe_jwt, login}

-- What is written to the JWT mount.
abbrev pub jwt_login : (role jwt : String) → Fields
jwt_login role jwt = field "jwt" (str jwt) (if role == "" then end else field "role" (str role) end)

module _ (env : Env) (spire : Spire) where
  -- A JWT-SVID is given out only for an audience that is set, and, where a trust domain is pinned,
  -- only if its SPIFFE ID lies in it.
  fetch_spiffe_jwt-ok :
      (socket audience trust_domain jwt : String) (w : World)
      → (fetch_spiffe_jwt env spire socket audience trust_domain w).0 ≡ ok jwt
      → (audience ≢ "")
        × (svid : Svid) × (spire.fetch w.trace socket audience ≡ ok svid)
        × (svid.marshal ≡ jwt)
        × ((trust_domain ≢ "") → svid.trust_domain ≡ trust_domain)
  unfolding fetch_spiffe_jwt
  fetch_spiffe_jwt-ok socket audience trust_domain jwt w e =
      elim (Result-cases (spire.fetch w.trace socket audience)) [
        | inl (svid, f) ↦ (
          ground (arith, eq_iff audience ""),
          svid,
          f,
          ground arith,
          λ h. ground (arith, eq_iff trust_domain "", eq_iff svid.trust_domain trust_domain),
        )
        | inr (inl (x, f)) ↦ absurd (ground arith)
        | inr (inr (p, f)) ↦ absurd (ground arith)
      ]

  -- A token that is configured wins over every other method, and is used with no request.
  pub login-token :
      (cfg : Config) (w : World)
      → cfg.token ≢ ""
      → login env spire cfg w ≡ (ok tt, record w { token = cfg.token })
  unfolding login
  login-token cfg w h = ground (arith, eq_iff cfg.token "")

  fetch_spiffe_jwt-state :
      (socket audience trust_domain : String) (w : World)
      → (fetch_spiffe_jwt env spire socket audience trust_domain w).1 ≡ w
  unfolding fetch_spiffe_jwt
  fetch_spiffe_jwt-state socket audience trust_domain w = ground arith

  login_jwt-err :
      (mount_path role jwt : String) (w : World) (e : Error)
      → (login_jwt env mount_path role jwt w).0 ≡ err e
      → (login_jwt env mount_path role jwt w).1.token ≡ w.token
  unfolding login_jwt
  login_jwt-err mount_path role jwt w e f = ground arith

  -- A login that fails leaves the client's token as it was.
  login-err :
      (cfg : Config) (w : World) (e : Error)
      → (login env spire cfg w).0 ≡ err e
      → (login env spire cfg w).1.token ≡ w.token
  unfolding login
  login-err cfg w e f =
      let m =
        fetch_spiffe_jwt env spire cfg.spiffe_socket cfg.spiffe_audience cfg.spiffe_trust_domain
          w in
      elim (Result-cases m.0) [
        | inl (jwt, g) ↦ ground (
          arith,
          fetch_spiffe_jwt-state cfg.spiffe_socket cfg.spiffe_audience cfg.spiffe_trust_domain w,
          login_jwt-err cfg.jwt_mount_path cfg.jwt_role jwt w e,
          login_jwt-err cfg.jwt_mount_path cfg.jwt_role cfg.jwt_token w e,
        )
        | inr g ↦ ground (
          arith,
          fetch_spiffe_jwt-state cfg.spiffe_socket cfg.spiffe_audience cfg.spiffe_trust_domain w,
          login_jwt-err cfg.jwt_mount_path cfg.jwt_role cfg.jwt_token w e,
        )
      ]

  login_jwt-ok :
      (mount_path role jwt : String) (w : World)
      → (login_jwt env mount_path role jwt w).0 ≡ ok tt
      → (s : Secret) × (token : String) × (env.vault_write w.trace w.token mount_path
            (jwt_login role jwt)
          ≡ secret s)
        × (s.auth ≡ some token)
        × ((login_jwt env mount_path role jwt w).1.token ≡ token)
  unfolding login_jwt
  login_jwt-ok mount_path role jwt w e =
      elim (VaultReply-cases (env.vault_write w.trace w.token mount_path (jwt_login role jwt))) [
        | inl (s, f) ↦ elim (Option-cases s.auth) [
          | inl g ↦ absurd (ground arith)
          | inr (token, g) ↦ (s, token, f, g, ground arith)
        ]
        | inr (inl f) ↦ absurd (ground arith)
        | inr (inr (x, f)) ↦ absurd (ground arith)
      ]

  login-steps :
      (cfg : Config) (w : World)
      → cfg.token ≡ ""
      → cfg.spiffe_socket ≢ ""
      → (login env spire cfg w).0 ≡ ok tt
      → (validate_spiffe_socket cfg.spiffe_socket ≡ ok tt)
        × (jwt : String) × ((fetch_spiffe_jwt env spire cfg.spiffe_socket cfg.spiffe_audience
              cfg.spiffe_trust_domain w).0
            ≡ ok jwt)
        × (login env spire cfg w ≡ login_jwt env cfg.jwt_mount_path cfg.jwt_role jwt w)
  unfolding login
  login-steps cfg w e h r =
      let m =
        fetch_spiffe_jwt env spire cfg.spiffe_socket cfg.spiffe_audience cfg.spiffe_trust_domain
          w in
      let same =
        fetch_spiffe_jwt-state cfg.spiffe_socket cfg.spiffe_audience cfg.spiffe_trust_domain w in
      elim (Result-cases (validate_spiffe_socket cfg.spiffe_socket)) [
        | inl (u, f) ↦ elim (Result-cases m.0) [
          | inl (jwt, g) ↦
              (f, jwt, g, ground (arith, eq_iff cfg.token "", eq_iff cfg.spiffe_socket "", same))
          | inr x ↦ absurd (ground (arith, eq_iff cfg.token "", eq_iff cfg.spiffe_socket ""))
        ]
        | inr x ↦ absurd (ground (arith, eq_iff cfg.token "", eq_iff cfg.spiffe_socket ""))
      ]

  -- If no token is configured and a SPIFFE socket is, a login that succeeds has not fallen back on
  -- another method: the socket's address is of at most 512 bytes, and a TCP address or a Unix path
  -- without ".."; an audience is configured, the SPIRE workload API gave a JWT-SVID for it, of the
  -- trust domain that is pinned, if one is; and the client's token is the one that Vault's JWT mount
  -- answered with to that very JWT-SVID.
  pub login-spiffe :
      (cfg : Config) (w : World)
      → cfg.token ≡ ""
      → cfg.spiffe_socket ≢ ""
      → (login env spire cfg w).0 ≡ ok tt
      → Allowed cfg.spiffe_socket
        × (cfg.spiffe_audience ≢ "")
        × (svid : Svid) × (spire.fetch w.trace cfg.spiffe_socket cfg.spiffe_audience ≡ ok svid)
        × ((cfg.spiffe_trust_domain ≢ "") → svid.trust_domain ≡ cfg.spiffe_trust_domain)
        × (s : Secret) × (token : String) × (env.vault_write w.trace w.token cfg.jwt_mount_path
              (jwt_login cfg.jwt_role svid.marshal)
            ≡ secret s)
        × (s.auth ≡ some token)
        × ((login env spire cfg w).1.token ≡ token)
  login-spiffe cfg w e h r =
      let (allowed, jwt, fetched, same) = login-steps cfg w e h r in
      let (audience, svid, given, is_jwt, pinned) =
        fetch_spiffe_jwt-ok cfg.spiffe_socket cfg.spiffe_audience cfg.spiffe_trust_domain jwt w
          fetched in
      let (s, token, wrote, auth, kept) =
        login_jwt-ok cfg.jwt_mount_path cfg.jwt_role jwt w (ap (λ m. m.0) (sym same) ∙ r) in
      (
        validate_spiffe_socket-ok cfg.spiffe_socket allowed,
        audience,
        svid,
        given,
        pinned,
        s,
        token,
        rw is_jwt wrote,
        auth,
        ap (λ m. m.1.token) same ∙ kept,
      )
