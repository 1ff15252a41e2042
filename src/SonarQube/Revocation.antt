-- ===== src/SonarQube/Revocation.antt =====
-- `Revoke` of the SonarQube adapter: which answers count for a revocation.
use Prim.Native.String.{◌++◌}
use vault_secrets_broker.Prelude.{
  ◌≡◌, ◌↔◌, inl, inr, ◌||◌, String, [], ◌∷◌, arith, eq_iff, ◌==◌, nat_eq, string_eq, Bool-cases,
}
use vault_secrets_broker.Exec.{ok, Result-cases}
use vault_secrets_broker.Net.{World, Env, HttpRequest, form_body}
use vault_secrets_broker.Adapter.{RevokeRequest}
use vault_secrets_broker.Adapter.Shared.Deletion.{Accepted, Reply-cases}
use vault_secrets_broker.SonarQube.{SonarQube, parse_credential_id, revoke, revoke_token, request}

parse_credential_id-nil : (parts : String × String) → parse_credential_id "" ≡ ok parts → ⊥
unfolding parse_credential_id
parse_credential_id-nil parts e = cc e

module _ (env : Env) (a : SonarQube) where
  -- The request for the revocation.
  abbrev pub revocation : (login name : String) → HttpRequest
  revocation login name = record {
    method = "POST";
    url = a.base_url ++ "/api/user_tokens/revoke";
    headers =
        ("Authorization", "Bearer " ++ a.admin_token)
        ∷ ("Content-Type", "application/x-www-form-urlencoded")
        ∷ [];
    body = form_body (("login", login) ∷ ("name", name) ∷ []);
  }

  revoke_token-ok_iff :
      (login name : String) (w : World)
      → ((revoke_token env a login name w).0 ≡ ok tt)
        ↔ Accepted env w (revocation login name) (λ c. c == 204 || c == 404)
  unfolding revoke_token request
  revoke_token-ok_iff login name w = (
    λ e. elim (Reply-cases (env.respond w.trace (revocation login name))) [
      | inl (resp, f) ↦ (ground arith, resp, f, ground arith)
      | inr (x, f) ↦ absurd (ground arith)
    ],
    λ accepted. let (made, resp, answered, code) = accepted in ground arith,
  )

  -- A revocation succeeds exactly when the identifier has a login and a token name, and SonarQube
  -- answers the revocation of that token of that login with 204 or 404.
  pub sonarqube_revoke-eq-ok_iff :
      (req : RevokeRequest) (w : World)
      → ((revoke env a req w).0 ≡ ok tt) ↔ (
          (parts : String × String) × (parse_credential_id req.credential_id ≡ ok parts)
          × Accepted env w (revocation parts.0 parts.1) (λ c. c == 204 || c == 404))
  unfolding revoke
  sonarqube_revoke-eq-ok_iff req w = (
    λ e. elim (Result-cases (parse_credential_id req.credential_id)) [
      | inl (parts, f) ↦ (
        parts,
        f,
        (revoke_token-ok_iff parts.0 parts.1 w).0 (ground (arith, eq_iff req.credential_id "")),
      )
      | inr (inl (x, f)) ↦ absurd (ground arith)
      | inr (inr (p, f)) ↦ absurd (ground arith)
    ],
    λ (parts, f, accepted). elim (Bool-cases (req.credential_id == "")) [
      | inl g ↦ absurd (parse_credential_id-nil parts (rw (← (eq_iff req.credential_id "").0 g) f))
      | inr g ↦ ground (arith, (revoke_token-ok_iff parts.0 parts.1 w).1 accepted)
    ],
  )
