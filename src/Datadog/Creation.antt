-- ===== src/Datadog/Creation.antt =====
-- `Rotate` and then `Status` of the Datadog adapter: a key that was created is there.
use Prim.Native.String.{◌++◌}
use vault_secrets_broker.Prelude.{
  String, ◌≡◌, ◌≢◌, refl, inl, inr, Bool, ◌&&◌, ◌||◌, false, true, none, some, List, [], ◌∷◌, arith,
  eq_iff, ◌==◌, nat_eq, string_eq, if◌then◌else◌, lookup_nonempty, Option-cases,
}
use vault_secrets_broker.Exec.{ok, Result-cases}
use vault_secrets_broker.Net.{
  World, Env, Event, sent, clock_read, record_event, slot_taken, HttpResponse, Reply, response,
  refused,
}
use vault_secrets_broker.Adapter.{RotateRequest, Rotated, CredentialStatus}
use vault_secrets_broker.Adapter.Shared.{random_hex}
use vault_secrets_broker.Datadog.Keys.{decode_data}
use vault_secrets_broker.Datadog.Revocation.{deletion}
use vault_secrets_broker.Datadog.{
  Datadog, adapter_name, token_time_fmt, key_path, collection_path, request, create_key,
  rotate_held, rotate, check_status,
}

-- The id in the answer to a creation.
unfoldable pub created_id : Reply → String
created_id (response resp) =
    if resp.status == 201 then elim (decode_data resp.body) [ none ↦ "" | some k ↦ k.id ] else ""
created_id (refused e) = ""

module _ (env : Env) (a : Datadog) where
  -- The key was created, and no deletion of it was asked for after that.
  unfoldable pub alive : (id : String) → List Event → Bool
  unfolding created_id
  alive id [] = false
  alive id (sent r ∷ es) =
      let before = alive id es in
      if r.method == "POST"
      then (r.url == a.base_url ++ collection_path env a && created_id (env.respond es r) == id)
        || before
      else if r.method == "DELETE" && r.url == a.base_url ++ key_path env a id
      then false
      else before
  alive id (_ ∷ es) = alive id es

  -- The provider answers a GET of a key that is there with 200.
  abbrev pub Serves : Type 0
  Serves =
      (id : String) (es : List Event)
      → alive id es ≡ true
      → (resp : HttpResponse) × (env.respond es (record (deletion env a id) { method = "GET" })
          ≡ response resp)
        × (resp.status ≡ 200)

  create_key-alive :
      (name : String) (meta : List (String × String)) (w : World) (created : String × String)
      → (create_key env a name meta w).0 ≡ ok created
      → (created.0 ≢ "") × (alive created.0 (create_key env a name meta w).1.trace ≡ true)
  unfolding create_key request alive
  create_key-alive name meta w (id, v) e = ground (
    arith,
    eq_iff id "",
    eq_iff id id,
    eq_iff (a.base_url ++ collection_path env a) (a.base_url ++ collection_path env a),
  )

  rotate_held-alive :
      (req : RotateRequest) (w : World) (r : Rotated)
      → (rotate_held env a req w).0 ≡ ok r
      → (r.credential_id ≢ "") × (alive r.credential_id (rotate_held env a req w).1.trace ≡ true)
  unfolding rotate_held alive
  rotate_held-alive req w r e = elim (Result-cases (random_hex env 2 w).0) [
    | inl (suffix, f) ↦
        let w1 = (random_hex env 2 w).1 in
        let name =
          req.provider_id ++ "-" ++ env.format token_time_fmt (env.now w1.trace) ++ "-" ++ suffix in
        let w2 = record_event clock_read w1 in
        elim (Result-cases (create_key env a name req.meta w2).0) [
          | inl (created, g) ↦
              let (there, made) = create_key-alive name req.meta w2 created g in
              elim (Option-cases (lookup_nonempty "old_key_id" req.meta)) [
                | inl k ↦ (ground arith, ground arith)
                | inr (old, k) ↦ (ground arith, ground arith)
              ]
          | inr (inl (x, g)) ↦ absurd (ground arith)
          | inr (inr (p, g)) ↦ absurd (ground arith)
        ]
    | inr (inl (x, f)) ↦ absurd (ground arith)
    | inr (inr (p, f)) ↦ absurd (ground arith)
  ]

  rotate-alive :
      (req : RotateRequest) (w : World) (r : Rotated)
      → (rotate env a req w).0 ≡ ok r
      → (r.credential_id ≢ "") × (alive r.credential_id (rotate env a req w).1.trace ≡ true)
  unfolding rotate alive
  rotate-alive req w r e = elim (Option-cases (env.acquire w.trace adapter_name)) [
    | inl f ↦
        let v = record_event (slot_taken adapter_name) w in
        let held = rotate_held-alive req v r (ground arith) in (held.0, ground (arith, held.1))
    | inr (x, f) ↦ absurd (ground arith)
  ]

  -- A key that a rotation has just created is reported as active under the identifier that the
  -- rotation gives, where the provider answers a GET of a key that is there with 200, and the request
  -- for it can be made.
  pub datadog_status-rotate :
      Serves
      → (req : RotateRequest) (w : World) (r : Rotated) → (rotate env a req w).0 ≡ ok r
      → env.bad_request "GET" (a.base_url ++ key_path env a r.credential_id) ≡ none
      → (s : CredentialStatus) × ((check_status env a r.credential_id (rotate env a req w).1).0
          ≡ ok s)
        × (s.active ≡ true)
  unfolding check_status request
  datadog_status-rotate serves req w r e made =
      let u = (rotate env a req w).1 in
      let (there, lives) = rotate-alive req w r e in
      let (resp, answered, found) = serves r.credential_id u.trace lives in
      (
        record {
          provider_id = r.credential_id;
          credential_id = r.credential_id;
          active = true;
          checked_at =
              env.now (sent (record (deletion env a r.credential_id) { method = "GET" }) ∷ u.trace);
        },
        ground (arith, eq_iff r.credential_id ""),
        refl,
      )
