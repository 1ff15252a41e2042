-- ===== src/Splunk/Rotation.antt =====
-- `Rotate` of the Splunk adapter keeps the contract of the adapters that clean up in the background.
use Prim.Native.String.{◌++◌}
use vault_secrets_broker.Prelude.{◌≡◌, refl, ◌≢◌, String, List, arith, eq_iff, string_eq}
use vault_secrets_broker.Exec.{wrap, ok}
use vault_secrets_broker.Net.{Cleanup, Time, World, Env}
use vault_secrets_broker.Adapter.{RotateRequest}
use vault_secrets_broker.Adapter.Shared.Contract.{
  slot_events, Quiet, IsRotation, rotation-IsRotation,
}
use vault_secrets_broker.Splunk.{
  Splunk, adapter_name, token_time_fmt, create_token, delete_token, cleanup, rotate_held, rotate,
}

module _ (env : Env) (a : Splunk) where
  abbrev credential_name : RotateRequest → String → Time → String
  credential_name r s t = r.provider_id ++ "-" ++ env.format token_time_fmt t ++ "-" ++ s

  create_token-Quiet :
      (name : String) (meta : List (String × String)) (w : World)
      → Quiet w (create_token env a name meta w).1
  unfolding create_token slot_events
  create_token-Quiet name meta w = ground arith

  create_token-ne-nil :
      (name : String) (meta : List (String × String)) (w : World) (v : String)
      → (create_token env a name meta w).0 ≡ ok v
      → v ≢ ""
  unfolding create_token
  create_token-ne-nil name meta w v e f = ground (arith, eq_iff v "")

  -- A rotation gives a credential that is not empty for the entity that was asked for, and only then
  -- launches the deletion of the old one, if the request names one; a failed rotation launches
  -- nothing. On every path the slot that was taken is given back.
  pub splunk_rotate-IsRotation :
      (req : RotateRequest) (w : World)
      → IsRotation adapter_name "old_token_name" req w (rotate env a req w)
  unfolding rotate rotate_held
  splunk_rotate-IsRotation =
      rotation-IsRotation env adapter_name "old_token_name" (wrap "splunk rotate: acquire slot")
        (wrap "splunk rotate: generate name suffix") (wrap "splunk rotate")
        (λ r s t. create_token env a (credential_name r s t) r.meta)
        (λ r s t v t'. record {
          provider_id = r.provider_id;
          credential_id = credential_name r s t;
          credential = v;
          rotated_at = t';
        })
        (λ r s t. create_token-Quiet (credential_name r s t) r.meta)
        (λ r s t u v e t'. (refl, create_token-ne-nil (credential_name r s t) r.meta u v e))

  -- The deletion of an old token launches nothing.
  pub cleanup-pending : (c : Cleanup) (w : World) → (cleanup env a c w).1.pending ≡ w.pending
  unfolding cleanup delete_token
  cleanup-pending c w = ground arith
