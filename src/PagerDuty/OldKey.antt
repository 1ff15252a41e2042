-- ===== src/PagerDuty/OldKey.antt =====
-- What becomes of the old key after `Rotate` and `Drain` of the PagerDuty adapter.
use Prim.Native.String.{◌++◌}
use vault_secrets_broker.Prelude.{
  String, ◌≡◌, ◌≢◌, ◌≤◌, inl, inr, true, arith, eq_iff, some, lookup_nonempty,
}
use vault_secrets_broker.Exec.{ok, panic, Result-cases}
use vault_secrets_broker.Net.{World, Env, Cleanup}
use vault_secrets_broker.Adapter.{RotateRequest, Rotated}
use vault_secrets_broker.Adapter.Shared.{sanitize_for_log}
use vault_secrets_broker.Adapter.Shared.Provider.{deleted, reported}
use vault_secrets_broker.Adapter.Shared.Drain.{count}
use vault_secrets_broker.Adapter.Shared.OldCredential.{Accounted, drain-Accounted}
use vault_secrets_broker.PagerDuty.Rotation.{pagerduty_rotate-IsRotation}
use vault_secrets_broker.PagerDuty.{
  PagerDuty, adapter_name, delete_key, request, cleanup, rotate, drain,
}

module _ (env : Env) (a : PagerDuty) where
  abbrev pub resource : String → String
  resource id = a.base_url ++ "/api_keys/" ++ id

  delete_key-deleted :
      (id : String) (w : World)
      → (delete_key env a id w).0 ≡ ok tt
      → deleted env (resource id) (delete_key env a id w).1.trace ≡ true
  unfolding delete_key request deleted
  delete_key-deleted id w e = ground (arith, eq_iff (resource id) (resource id))

  delete_key-no_panic : (id : String) (w : World) (p : String) → (delete_key env a id w).0 ≢ panic p
  unfolding delete_key request
  delete_key-no_panic id w p e = ground arith

  cleanup-Accounted :
      (c : Cleanup) (w : World)
      → Accounted env resource "old_key_id" c.old_id (cleanup env a c w).1.trace
  unfolding cleanup reported
  cleanup-Accounted c w = elim (Result-cases (delete_key env a c.old_id w).0) [
    | inl (x, e) ↦ inl (rw (e, cleanup) (delete_key-deleted c.old_id w e))
    | inr (inl (x, e)) ↦ inr (
        rw (e, cleanup)
          (ground (arith, eq_iff (sanitize_for_log c.old_id) (sanitize_for_log c.old_id))))
    | inr (inr (p, e)) ↦ absurd (delete_key-no_panic c.old_id w p e)
  ]

  cleanup-pending : (c : Cleanup) (w : World) → (cleanup env a c w).1.pending ≡ w.pending
  unfolding cleanup delete_key
  cleanup-pending c w = ground arith

  cleanup-deleted :
      (c : Cleanup) (url : String) (w : World)
      → deleted env url w.trace ≡ true
      → deleted env url (cleanup env a c w).1.trace ≡ true
  unfolding cleanup delete_key request deleted
  cleanup-deleted c url w h = ground arith

  cleanup-reported :
      (c : Cleanup) (key value : String) (w : World)
      → reported key value w.trace ≡ true
      → reported key value (cleanup env a c w).1.trace ≡ true
  unfolding cleanup delete_key request reported
  cleanup-reported c key value w h = ground arith

  -- After a rotation that names an old key, and a drain that the context does not cut short, the
  -- provider has answered the deletion of the old key by saying that it is gone, or the log has
  -- the error of its deletion under its name.
  pub pagerduty_drain-rotate :
      (req : RotateRequest) (w : World) (old : String) (r : Rotated)
      → lookup_nonempty "old_key_id" req.meta ≡ some old
      → (rotate env a req w).0 ≡ ok r
      → count adapter_name (rotate env a req w).1.pending
        ≤ env.deadline (rotate env a req w).1.trace adapter_name
      → Accounted env resource "old_key_id" old (drain env a (rotate env a req w).1).1.trace
  unfolding drain
  pagerduty_drain-rotate req w old r named done =
      drain-Accounted env adapter_name "old_key_id" "old_key_id" resource (cleanup env a)
        cleanup-pending cleanup-Accounted cleanup-deleted cleanup-reported req w
        (rotate env a req w) old r (pagerduty_rotate-IsRotation env a req w) done named
