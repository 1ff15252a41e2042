-- ===== src/Splunk/Revocation.antt =====
-- `Revoke` of the Splunk adapter: which answers count for a revocation.
use Prim.Native.String.{◌++◌}
use vault_secrets_broker.Prelude.{
  ◌≡◌, ◌≢◌, ◌↔◌, inl, inr, ◌||◌, String, [], ◌∷◌, arith, eq_iff, ◌==◌, nat_eq, string_eq,
}
use vault_secrets_broker.Exec.{ok}
use vault_secrets_broker.Net.{World, Env, HttpRequest, empty_body}
use vault_secrets_broker.Adapter.{RevokeRequest}
use vault_secrets_broker.Adapter.Shared.Deletion.{Accepted, Reply-cases}
use vault_secrets_broker.Splunk.{Splunk, revoke, token_url, delete_token, request}

module _ (env : Env) (a : Splunk) where
  -- The request for the deletion.
  abbrev pub deletion : String → HttpRequest
  deletion id = record {
    method = "DELETE";
    url = token_url env a id;
    headers = ("Authorization", "Bearer " ++ a.auth_token) ∷ [];
    body = empty_body;
  }

  -- A revocation succeeds exactly when the identifier is not empty and the provider answers the
  -- deletion with 200, 204 or 404.
  splunk_revoke-eq-ok_iff :
      (req : RevokeRequest) (w : World)
      → ((revoke env a req w).0 ≡ ok tt) ↔ (
          (req.credential_id ≢ "")
          × Accepted env w (deletion req.credential_id) (λ c. c == 200 || c == 204 || c == 404))
  unfolding revoke delete_token request
  splunk_revoke-eq-ok_iff req w = (
    λ e. (
      ground (arith, eq_iff req.credential_id ""),
      elim (Reply-cases (env.respond w.trace (deletion req.credential_id))) [
        | inl (resp, f) ↦ (ground arith, resp, f, ground arith)
        | inr (x, f) ↦ absurd (ground arith)
      ],
    ),
    λ (h, accepted).
        let (made, resp, answered, code) = accepted in ground (arith, eq_iff req.credential_id ""),
  )
