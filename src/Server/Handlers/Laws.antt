-- ===== src/Server/Handlers/Laws.antt =====
-- What the handlers answer, and what an answer says.
use Prim.Native.String
use vault_secrets_broker.Prelude.{
  String, ◌≡◌, inl, inr, ◌||◌, some, List, [], ◌∷◌, arith, ◌==◌, string_eq, Bool-cases,
  Option-cases,
}
use vault_secrets_broker.Exec.{Result-cases, Error, ok, err, panic}
use vault_secrets_broker.Net.{World, Env, Event, logged, record_event, nil_secret}
use vault_secrets_broker.Json.{field, end, str}
use vault_secrets_broker.Adapter.{Adapter, Rotated}
use vault_secrets_broker.Adapter.Registry
use vault_secrets_broker.Vault.{Base64, transit_encrypt}
use vault_secrets_broker.Server.{Request, problem_with, rotated, Response}
use vault_secrets_broker.Server.Handlers.{
  Handlers, RotateBody, decode_rotate, encrypt_and_answer, rotate_with, rotate,
}

-- The lines of the log, the newest first.
unfoldable pub logs : List Event → List Event
logs [] = []
logs (logged level message args e ∷ es) = logged level message args e ∷ logs es
logs (_ ∷ es) = logs es

module _ (env : Env) (base64 : Base64) (h : Handlers) where
  -- How an answer with code 200 came about.
  pub record Success (r : Request) (w : World) (resp : Response) : Type 0 where
    pub req : RotateBody
    pub decoded : decode_rotate r.body ≡ some req
    pub adapter : Adapter
    pub found : Registry.get req.provider h.registry ≡ ok adapter
    pub result : Rotated
    pub after : World
    pub rotation :
        adapter.rotate (record { provider_id = req.provider_id; meta = req.meta }) w
        ≡ (ok result, after)
    pub ciphertext : String
    pub encrypted :
        (transit_encrypt env base64 h.transit_key_name result.credential after).0 ≡ ok ciphertext
    pub answered :
        resp.answer
        ≡ rotated (record {
          provider_id = result.provider_id;
          encrypted_value = ciphertext;
          rotated_at = result.rotated_at;
        })

  encrypt_200 :
      (provider : String) (result : Rotated) (w w' : World) (resp : Response)
      → encrypt_and_answer env base64 h provider result w ≡ (ok resp, w')
      → resp.code ≡ 200
      → (ct : String) × ((transit_encrypt env base64 h.transit_key_name result.credential w).0
          ≡ ok ct)
        × (resp.answer
            ≡ rotated (record {
              provider_id = result.provider_id;
              encrypted_value = ct;
              rotated_at = result.rotated_at;
            }))
  unfolding encrypt_and_answer
  encrypt_200 provider result w w' resp e c =
      elim (Result-cases (transit_encrypt env base64 h.transit_key_name result.credential w).0) [
        | inl (ct, f) ↦ (ct, f, ground arith)
        | inr (inl (x, f)) ↦ absurd (ground arith)
        | inr (inr (p, f)) ↦ absurd (ground arith)
      ]

  rotate_with_200 :
      (req : RotateBody) (a : Adapter) (w w' : World) (resp : Response)
      → rotate_with env base64 h req a w ≡ (ok resp, w')
      → resp.code ≡ 200
      → (result : Rotated) × (after : World) × (a.rotate
            (record { provider_id = req.provider_id; meta = req.meta })
            w
          ≡ (ok result, after))
        × (encrypt_and_answer env base64 h req.provider result after ≡ (ok resp, w'))
  unfolding rotate_with
  rotate_with_200 req a w w' resp e c =
      let m = a.rotate (record { provider_id = req.provider_id; meta = req.meta }) w in
      elim (Result-cases m.0) [
        | inl (result, f) ↦ (result, m.1, ground arith, ground arith)
        | inr (inl (x, f)) ↦ absurd (ground arith)
        | inr (inr (p, f)) ↦ absurd (ground arith)
      ]

  -- An answer with code 200 to POST /v1/credentials/rotate comes from a well-formed request whose
  -- provider is registered, from one successful rotation by its adapter, and from one successful
  -- Transit encryption of the new credential, whose ciphertext it carries.
  pub rotate-Success :
      (r : Request) (w w' : World) (resp : Response)
      → rotate env base64 h r w ≡ (ok resp, w')
      → resp.code ≡ 200
      → Success r w resp
  unfolding rotate
  rotate-Success r w w' resp e c = elim (Option-cases (decode_rotate r.body)) [
    | inl f ↦ absurd (ground arith)
    | inr (req, f) ↦ elim (Bool-cases (req.provider == "" || req.provider_id == "")) [
      | inl g ↦ absurd (ground arith)
      | inr g ↦ elim (Result-cases (Registry.get req.provider h.registry)) [
        | inl (a, k) ↦
            let (result, after, ran, rest) = rotate_with_200 req a w w' resp (ground arith) c in
            let (ct, enc, ans) = encrypt_200 req.provider result after w' resp rest c in
            record {
              req = req;
              decoded = f;
              adapter = a;
              found = k;
              result = result;
              after = after;
              rotation = ran;
              ciphertext = ct;
              encrypted = enc;
              answered = ans;
            }
        | inr (inl (x, k)) ↦ absurd (ground arith)
        | inr (inr (p, k)) ↦ absurd (ground arith)
      ]
    ]
  ]

  transit_encrypt-logs :
      (p : String) (w : World)
      → logs (transit_encrypt env base64 h.transit_key_name p w).1.trace ≡ logs w.trace
  unfolding transit_encrypt logs
  transit_encrypt-logs p w = ground arith

  -- Neither the answer nor the log shows anything of a new credential but what Vault's encryption
  -- makes of it: two rotations that agree on the entity and the time, and whose credentials Vault
  -- encrypts to the same outcome, get the same answer and the same lines in the log, whatever the
  -- credentials and their identifiers are.
  pub encrypt_and_answer_opaque :
      (provider : String) (r s : Rotated) (w : World)
      → r.provider_id ≡ s.provider_id
      → r.rotated_at ≡ s.rotated_at
      → (transit_encrypt env base64 h.transit_key_name r.credential w).0
        ≡ (transit_encrypt env base64 h.transit_key_name s.credential w).0
      → ((encrypt_and_answer env base64 h provider r w).0
          ≡ (encrypt_and_answer env base64 h provider s w).0)
        × (logs (encrypt_and_answer env base64 h provider r w).1.trace
            ≡ logs (encrypt_and_answer env base64 h provider s w).1.trace)
  unfolding encrypt_and_answer logs
  encrypt_and_answer_opaque provider r s w e f g =
      let quiet = transit_encrypt-logs r.credential w in
      let quiet' = transit_encrypt-logs s.credential w in
      elim (Result-cases (transit_encrypt env base64 h.transit_key_name s.credential w).0) [
        | inl (ct, k) ↦ (ground arith, ground arith)
        | inr (inl (x, k)) ↦ (ground arith, ground arith)
        | inr (inr (p, k)) ↦ (ground arith, ground arith)
      ]

  -- When the adapter fails, the answer is 502 with the adapter's error in it, and the same error is
  -- logged.
  pub rotate_with_err :
      (req : RotateBody) (a : Adapter) (w after : World) (e : Error)
      → a.rotate (record { provider_id = req.provider_id; meta = req.meta }) w ≡ (err e, after)
      → rotate_with env base64 h req a w ≡ (
        ok (record { code = 502; answer = problem_with "rotation failed: " e }),
        record_event
            (logged "ERROR" "adapter rotate failed" (("provider", req.provider) ∷ []) (some e))
            after,
      )
  unfolding rotate_with
  rotate_with_err req a w after e f = ground arith

  -- A new credential for which Vault answers with no body makes the handler panic: the provider has
  -- rotated it, and nobody gets it.
  encrypt_and_answer_nil :
      (provider : String) (result : Rotated) (w : World)
      → env.vault_write w.trace w.token
          (String.◌++◌ "transit/encrypt/" h.transit_key_name)
          (field "plaintext" (str (base64.encode_to_string result.credential)) end)
        ≡ nil_secret
      → (encrypt_and_answer env base64 h provider result w).0
        ≡ panic "invalid memory address or nil pointer dereference"
  unfolding encrypt_and_answer transit_encrypt
  encrypt_and_answer_nil provider result w e = ground arith
