-- ===== src/Adapter/Shared/OldCredential.antt =====
-- A rotation and then a drain: what becomes of the old credential, for an adapter whose credentials
-- are resources of the provider.
use vault_secrets_broker.Prelude.{
  String, ◌≡◌, ◌≤◌, ◌⊎◌, inl, inr, true, some, lookup_nonempty, List,
}
use vault_secrets_broker.Exec.{Result, ok, Exec}
use vault_secrets_broker.Net.{World, Env, Event, Cleanup}
use vault_secrets_broker.Adapter.{RotateRequest, Rotated}
use vault_secrets_broker.Adapter.Shared.{sanitize_for_log, drain_within}
use vault_secrets_broker.Adapter.Shared.Provider.{deleted, reported}
use vault_secrets_broker.Adapter.Shared.Contract.{IsRotation}
use vault_secrets_broker.Adapter.Shared.Drain.{count}
use vault_secrets_broker.Adapter.Shared.Accounts.{drain_within-each, rotation-old}

-- The credential is gone from the provider, or the log has the error of its deletion, under this
-- argument.
abbrev pub Accounted : Env → (url : String → String) → (arg id : String) → List Event → Type 0
Accounted env url arg id es =
    (deleted env (url id) es ≡ true) ⊎ (reported arg (sanitize_for_log id) es ≡ true)

module _ (env : Env) (name old_key arg : String) (url : String → String)
    (cleanup : Cleanup → Exec World Unit)
    (quiet : (c : Cleanup) (w : World) → (cleanup c w).1.pending ≡ w.pending)
    (ends : (c : Cleanup) (w : World) → Accounted env url arg c.old_id (cleanup c w).1.trace)
    (keeps_deleted : (c : Cleanup) (u : String) (w : World)
      → deleted env u w.trace ≡ true
      → deleted env u (cleanup c w).1.trace ≡ true)
    (keeps_reported : (c : Cleanup) (key value : String) (w : World)
      → reported key value w.trace ≡ true
      → reported key value (cleanup c w).1.trace ≡ true) where
  cleanup-stays :
      (c d : Cleanup) (w : World)
      → Accounted env url arg d.old_id w.trace
      → Accounted env url arg d.old_id (cleanup c w).1.trace
  cleanup-stays c d w (inl h) = inl (keeps_deleted c (url d.old_id) w h)
  cleanup-stays c d w (inr h) = inr (keeps_reported c arg (sanitize_for_log d.old_id) w h)

  pub drain-Accounted :
      (req : RotateRequest) (w : World) (m : Result Rotated × World) (old : String) (r : Rotated)
      → IsRotation name old_key req w m
      → m.0 ≡ ok r
      → lookup_nonempty old_key req.meta ≡ some old
      → count name m.1.pending ≤ env.deadline m.1.trace name
      → Accounted env url arg old
          (drain_within name cleanup (env.deadline m.1.trace name) m.1).1.trace
  drain-Accounted req w m old r h done named enough =
      let k = env.deadline m.1.trace name in
      rotation-old (λ c. Accounted env url arg c.old_id (drain_within name cleanup k m.1).1.trace)
        name old_key req w m old r h done named
        (drain_within-each name cleanup (λ c es. Accounted env url arg c.old_id es) quiet ends
          cleanup-stays k m.1 enough)
