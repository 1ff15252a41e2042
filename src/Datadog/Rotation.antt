-- ===== src/Datadog/Rotation.antt =====
-- `Rotate` of the Datadog adapter keeps the contract of the adapters that clean up in the background.
use Prim.Native.String.{◌++◌}
use vault_secrets_broker.Prelude.{◌≡◌, refl, ◌≢◌, String, List, arith, eq_iff, string_eq}
use vault_secrets_broker.Exec.{wrap, ok}
use vault_secrets_broker.Net.{Time, World, Env}
use vault_secrets_broker.Adapter.{RotateRequest}
use vault_secrets_broker.Adapter.Shared.Contract.{
  slot_events, Quiet, IsRotation, rotation-IsRotation,
}
use vault_secrets_broker.Datadog.{
  Datadog, adapter_name, token_time_fmt, create_key, rotate_held, rotate,
}

module _ (env : Env) (a : Datadog) where
  abbrev credential_name : RotateRequest → String → Time → String
  credential_name r s t = r.provider_id ++ "-" ++ env.format token_time_fmt t ++ "-" ++ s

  create_key-Quiet :
      (name : String) (meta : List (String × String)) (w : World)
      → Quiet w (create_key env a name meta w).1
  unfolding create_key slot_events
  create_key-Quiet name meta w = ground arith

  create_key-ne-nil :
      (name : String) (meta : List (String × String)) (w : World) (v : (String × String))
      → (create_key env a name meta w).0 ≡ ok v
      → v.1 ≢ ""
  unfolding create_key
  create_key-ne-nil name meta w v e f = ground (arith, eq_iff v.1 "")

  -- A rotation gives a credential that is not empty for the entity that was asked for, and only then
  -- launches the deletion of the old one, if the request names one; a failed rotation launches
  -- nothing. On every path the slot that was taken is given back.
  pub datadog_rotate-IsRotation :
      (req : RotateRequest) (w : World)
      → IsRotation adapter_name "old_key_id" req w (rotate env a req w)
  unfolding rotate rotate_held
  datadog_rotate-IsRotation =
      rotation-IsRotation env adapter_name "old_key_id" (wrap "datadog rotate: acquire slot")
        (wrap "datadog rotate: generate name suffix") (wrap "datadog rotate")
        (λ r s t. create_key env a (credential_name r s t) r.meta)
        (λ r s t v t'. record {
          provider_id = r.provider_id;
          credential_id = v.0;
          credential = v.1;
          rotated_at = t';
        })
        (λ r s t. create_key-Quiet (credential_name r s t) r.meta)
        (λ r s t u v e t'. (refl, create_key-ne-nil (credential_name r s t) r.meta u v e))
