-- ===== src/GitHub/Rotation.antt =====
-- `Rotate` of the GitHub adapter: when the old token is deleted.
use Prim.Native.String.{◌++◌}
use vault_secrets_broker.Prelude.{
  String, ◌≡◌, refl, ◌≢◌, ◌⊎◌, inl, inr, Option, none, some, List, [], ◌∷◌, arith, eq_iff, ◌==◌,
  string_eq, if◌then◌else◌, lookup_nonempty, ap, ◌∙◌,
}
use vault_secrets_broker.Prelude.Int.{ℤ}
use vault_secrets_broker.Json.{Json}
use vault_secrets_broker.Exec.{Result, Result-cases, ok, err, panic, ◌>>=◌}
use vault_secrets_broker.Net.{World, Env, Event, sent, clock_read, record_event}
use vault_secrets_broker.Adapter.{RotateRequest, RevokeRequest, Rotated}
use vault_secrets_broker.GitHub.{GitHub, create_token, finish, request, revoke, revoke_old, rotate}

-- The URLs that a DELETE was sent to, the newest first.
unfoldable pub deletions : List Event → List String
deletions [] = []
deletions (sent r ∷ es) =
    let rest = deletions es in if r.method == "DELETE" then r.url ∷ rest else rest
deletions (_ ∷ es) = deletions es

module _ (env : Env) (a : GitHub) where
  -- What a rotation may have deleted, by its outcome.
  abbrev pub Deletes : RotateRequest → World → Result Rotated × World → Type 0
  Deletes req w (ok r, u) =
      (r.credential ≢ "")
      × ((deletions u.trace ≡ deletions w.trace)
          ⊎ ((old : String) × (lookup_nonempty "old_token_id" req.meta ≡ some old)
              × (deletions u.trace
                  ≡ (a.base_url ++ "/user/personal_access_tokens/" ++ old) ∷ deletions w.trace)))
  Deletes req w (err e, u) = deletions u.trace ≡ deletions w.trace
  Deletes req w (panic p, u) = deletions u.trace ≡ deletions w.trace

  revoke-deletions :
      (req : RevokeRequest) (w : World)
      → (deletions (revoke env a req w).1.trace ≡ deletions w.trace)
        ⊎ (deletions (revoke env a req w).1.trace
            ≡ (a.base_url ++ "/user/personal_access_tokens/" ++ req.credential_id)
              ∷ deletions w.trace)
  unfolding revoke request deletions
  revoke-deletions req w = ground arith

  request-deletions :
      (path : String) (body : Option Json) (w : World)
      → deletions (request env a "POST" path body w).1.trace ≡ deletions w.trace
  unfolding request deletions
  request-deletions path body w = ground arith

  revoke-no_panic :
      (req : RevokeRequest) (w : World) (p : String) → (revoke env a req w).0 ≢ panic p
  unfolding revoke request
  revoke-no_panic req w p e = ground arith

  revoke_old-deletions :
      (id : String) (old : Option String) (w : World)
      → ((revoke_old env a id old w).0 ≡ ok tt)
        × ((deletions (revoke_old env a id old w).1.trace ≡ deletions w.trace)
            ⊎ ((o : String) × (old ≡ some o)
                × (deletions (revoke_old env a id old w).1.trace
                    ≡ (a.base_url ++ "/user/personal_access_tokens/" ++ o) ∷ deletions w.trace)))
  unfolding revoke_old
  revoke_old-deletions id none w = (refl, inl refl)
  revoke_old-deletions id (some o) w =
      let req : RevokeRequest = record { provider_id = id; credential_id = o } in
      let no_panic = revoke-no_panic req w in
      elim (revoke-deletions req w) [
        | inl e ↦ (ground (arith, no_panic), inl (ground (arith, no_panic)))
        | inr e ↦ (ground (arith, no_panic), inr (o, refl, ground (arith, no_panic)))
      ]

  create_token-deletions :
      (body : Json) (w : World) → deletions (create_token env a body w).1.trace ≡ deletions w.trace
  unfolding create_token
  create_token-deletions body w =
      ground (arith, request-deletions "/user/personal_access_tokens" (some body) w)

  create_token-ok :
      (body : Json) (w : World) (created : ℤ × String)
      → (create_token env a body w).0 ≡ ok created
      → created.1 ≢ ""
  unfolding create_token
  create_token-ok body w (id, token) e = ground (arith, eq_iff token "")

  finish-Deletes :
      (req : RotateRequest) (created : ℤ × String) (w v : World)
      → created.1 ≢ ""
      → deletions v.trace ≡ deletions w.trace
      → Deletes req w (finish env a req created v)
  unfolding finish deletions
  finish-Deletes req created w v there same =
      let old = lookup_nonempty "old_token_id" req.meta in
      let (went, done) = revoke_old-deletions req.provider_id old (record_event clock_read v) in
      elim done [
        | inl e ↦ rw went (there, inl (e ∙ same))
        | inr (o, f, e) ↦ rw went (
          there,
          inr (o, f, e ∙ ap (λ us. (a.base_url ++ "/user/personal_access_tokens/" ++ o) ∷ us) same),
        )
      ]

  created-Deletes :
      (req : RotateRequest) (body : Json) (w v : World)
      → deletions v.trace ≡ deletions w.trace
      → Deletes req w ((create_token env a body >>= finish env a req) v)
  created-Deletes req body w v same =
      let m = create_token env a body v in
      let kept = create_token-deletions body v ∙ same in
      elim (Result-cases m.0) [
        | inl (created, e) ↦
            rw e (finish-Deletes req created w m.1 (create_token-ok body v created e) kept)
        | inr (inl (x, e)) ↦ rw e kept
        | inr (inr (p, e)) ↦ rw e kept
      ]

  -- A rotation that fails has deleted no token. One that succeeds gives a token that is not empty, and
  -- has sent at most one deletion, of the token that the request names as the old one, whatever came
  -- back for it.
  pub github_rotate-Deletes : (req : RotateRequest) (w : World) → Deletes req w (rotate env a req w)
  unfolding rotate deletions
  github_rotate-Deletes req w = created-Deletes req _ w _ refl
