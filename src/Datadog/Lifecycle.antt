-- ===== src/Datadog/Lifecycle.antt =====
-- `Revoke` and then `Status` of the Datadog adapter: the credential as a resource of the provider.
use Prim.Native.String
use vault_secrets_broker.Prelude.{
  String, ◌≡◌, false, true, arith, eq_iff, nat_eq, string_eq, inl, inr, refl, All, List, ◌++◌,
}
use vault_secrets_broker.Exec.{ok}
use vault_secrets_broker.Net.{World, Env, Event}
use vault_secrets_broker.Adapter.{RevokeRequest, CredentialStatus}
use vault_secrets_broker.Adapter.Shared.Provider.{
  deleted, Forgets, Resources, NoCreation, status-revoke,
}
use vault_secrets_broker.Adapter.Shared.Deletion.{Reply-cases}
use vault_secrets_broker.Datadog.Revocation.{deletion}
use vault_secrets_broker.Datadog.{
  Datadog, revoke, check_status, delete_key, key_path, request, adapter,
}

module _ (env : Env) (a : Datadog) where
  abbrev resource : String → String
  resource id = String.◌++◌ a.base_url (key_path env a id)

  revoke-deleted :
      (req : RevokeRequest) (w : World)
      → (revoke env a req w).0 ≡ ok tt
      → deleted env (resource req.credential_id) (revoke env a req w).1.trace ≡ true
  unfolding revoke delete_key request deleted
  revoke-deleted req w e =
      ground (arith, eq_iff (resource req.credential_id) (resource req.credential_id))

  status-deleted :
      (id : String) (w : World) (s : CredentialStatus)
      → Forgets env
      → deleted env (resource id) w.trace ≡ true
      → (check_status env a id w).0 ≡ ok s
      → s.active ≡ false
  unfolding check_status request
  status-deleted id w s forgets gone e =
      elim (Reply-cases (env.respond w.trace (record (deletion env a id) { method = "GET" }))) [
        | inl (resp, f) ↦
            let not_there =
              forgets w.trace (record (deletion env a id) { method = "GET" }) resp refl gone f in
            ground arith
        | inr (x, f) ↦ absurd (ground arith)
      ]

  abbrev resources : Resources env (adapter env a)
  unfolding adapter
  resources = record {
    url = resource;
    revoke-deleted = revoke-deleted;
    status-deleted = status-deleted;
  }

  -- A key that was revoked is never reported as active, whatever is sent after that, until something
  -- is created. The provider answers no GET of a deleted key but with 404.
  pub datadog_status-revoke :
      Forgets env
      → (req : RevokeRequest) (w u : World) (later : List Event) (s : CredentialStatus)
      → (revoke env a req w).0 ≡ ok tt
      → u.trace ≡ later ++ (revoke env a req w).1.trace
      → All NoCreation later
      → (check_status env a req.credential_id u).0 ≡ ok s
      → s.active ≡ false
  unfolding adapter
  datadog_status-revoke forgets = status-revoke env (adapter env a) resources forgets
