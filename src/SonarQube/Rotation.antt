-- ===== src/SonarQube/Rotation.antt =====
-- `Rotate` of the SonarQube adapter keeps the contract of the adapters.
use Prim.Native.String.{◌++◌}
use vault_secrets_broker.Prelude.{
  ◌≡◌, refl, ◌≢◌, inl, inr, String, none, some, arith, eq_iff, lookup_nonempty, Bool-cases, ◌==◌,
  string_eq,
}
use vault_secrets_broker.Exec.{wrap, ok}
use vault_secrets_broker.Net.{World, Env}
use vault_secrets_broker.Adapter.{RotateRequest}
use vault_secrets_broker.Adapter.Shared.Contract.{
  slot_events, Quiet, IsRotation, rotation-IsRotation,
}
use vault_secrets_broker.SonarQube.{
  SonarQube, adapter_name, token_time_fmt, generate_token, rotate_held, rotate,
}

module _ (env : Env) (a : SonarQube) where
  generate_token-Quiet :
      (login name token_type : String) (w : World)
      → Quiet w (generate_token env a login name token_type w).1
  unfolding generate_token slot_events
  generate_token-Quiet login name token_type w = ground arith

  generate_token-ne-nil :
      (login name token_type : String) (w : World) (v : String)
      → (generate_token env a login name token_type w).0 ≡ ok v
      → v ≢ ""
  unfolding generate_token
  generate_token-ne-nil login name token_type w v e f = ground (arith, eq_iff v "")

  -- A rotation gives a credential that is not empty for the entity that was asked for, and only then
  -- launches the deletion of the old one, if the request names one; a failed rotation launches
  -- nothing. On every path the slot that was taken is given back.
  pub sonarqube_rotate-IsRotation :
      (req : RotateRequest) (w : World)
      → IsRotation adapter_name "old_token_name" req w (rotate env a req w)
  unfolding rotate rotate_held
  sonarqube_rotate-IsRotation req w = elim (Bool-cases (req.provider_id == "")) [
    | inl e ↦ rw e (inl refl, refl)
    | inr e ↦ rw e (
        rotation-IsRotation env adapter_name "old_token_name"
          (wrap "sonarqube rotate: acquire slot") (wrap "sonarqube rotate: generate name suffix")
          (wrap "sonarqube rotate")
          (λ r s t.
            generate_token env a r.provider_id
              (r.provider_id ++ "-" ++ env.format token_time_fmt t ++ "-" ++ s)
              (elim (lookup_nonempty "token_type" r.meta) [ none ↦ "USER_TOKEN" | some g ↦ g ]))
          (λ r s t v t'. record {
            provider_id = r.provider_id;
            credential_id =
                r.provider_id
                ++ ":"
                ++ (r.provider_id ++ "-" ++ env.format token_time_fmt t ++ "-" ++ s);
            credential = v;
            rotated_at = t';
          })
          (λ r s t. generate_token-Quiet r.provider_id _ _)
          (λ r s t u v e' t'. (refl, generate_token-ne-nil r.provider_id _ _ u v e')) req w)
  ]
