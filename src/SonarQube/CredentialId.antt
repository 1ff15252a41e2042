-- ===== src/SonarQube/CredentialId.antt =====
-- The credential identifiers that the SonarQube adapter gives.
use Prim.Native.String.{◌++◌}
use text.Mathlib.TextLemmas.{append-eq-nil_iff}
use vault_secrets_broker.Prelude.{
  String, ◌≡◌, ap, ◌∙◌, ◌≢◌, false, arith, eq_iff, string_eq, inl, inr, [], ◌∷◌, Option-cases, none,
  some, lookup_nonempty,
}
use vault_secrets_broker.Prelude.Text
use vault_secrets_broker.Exec.{Result-cases, ok}
use vault_secrets_broker.Adapter.{RotateRequest, Rotated}
use vault_secrets_broker.Adapter.Shared.{random_hex}
use vault_secrets_broker.Net.{
  Env, World, HttpRequest, form_body, sent, clock_read, random_read, slot_taken, slot_released,
  record_event,
}
use vault_secrets_broker.SonarQube.{
  SonarQube, adapter_name, token_time_fmt, parse_credential_id, generate_token, request,
  rotate_held, rotate,
}
use vault_secrets_broker.SonarQube.Parsing.{parse_credential_id-append}

-- The request that creates a token.
abbrev pub generate_request : SonarQube → (login name token_type : String) → HttpRequest
generate_request a login name token_type = record {
  method = "POST";
  url = a.base_url ++ "/api/user_tokens/generate";
  headers =
      ("Authorization", "Bearer " ++ a.admin_token)
      ∷ ("Content-Type", "application/x-www-form-urlencoded")
      ∷ [];
  body = form_body (("login", login) ∷ ("name", name) ∷ ("type", token_type) ∷ []);
}

abbrev pub token_type_of : RotateRequest → String
token_type_of req = elim (lookup_nonempty "token_type" req.meta) [
  | none ↦ "USER_TOKEN"
  | some given ↦ given
]

module _ (env : Env) (a : SonarQube) where
  generate_token-sent :
      (login name token_type v : String) (u : World)
      → (generate_token env a login name token_type u).0 ≡ ok v
      → (generate_token env a login name token_type u).1.trace
        ≡ sent (generate_request a login name token_type) ∷ u.trace
  unfolding generate_token request
  generate_token-sent login name token_type v u e = ground arith

  random_hex-trace : (w : World) → (random_hex env 2 w).1.trace ≡ random_read ∷ w.trace
  unfolding random_hex
  random_hex-trace w = ground arith

  module _ (req : RotateRequest) where
    held-credential_id :
        (w : World) (r : Rotated)
        → (rotate_held env a req w).0 ≡ ok r
        → (rest : String) × (r.credential_id
            ≡ req.provider_id ++ ":" ++ req.provider_id ++ "-" ++ rest)
          × ((rotate_held env a req w).1.trace
              ≡ clock_read
                ∷ sent (
                    generate_request a req.provider_id
                      (req.provider_id ++ "-" ++ rest)
                      (token_type_of req))
                ∷ clock_read
                ∷ random_read
                ∷ w.trace)
    unfolding rotate_held
    held-credential_id w r e = elim (Result-cases (random_hex env 2 w).0) [
      | inl (suffix, f) ↦
          let v = (random_hex env 2 w).1 in
          let rest = env.format token_time_fmt (env.now v.trace) ++ "-" ++ suffix in
          let name = req.provider_id ++ "-" ++ rest in
          let m =
            generate_token env a req.provider_id name (token_type_of req)
              (record_event clock_read v) in
          elim (Result-cases m.0) [
            | inl (value, g) ↦
                let sends =
                  generate_token-sent req.provider_id name (token_type_of req) value
                    (record_event clock_read v) g in
                let drawn = random_hex-trace w in
                elim (Option-cases (lookup_nonempty "old_token_name" req.meta)) [
                  | inl h ↦ (rest, ground arith, ground (arith, sends, drawn))
                  | inr (old, h) ↦ (rest, ground arith, ground (arith, sends, drawn))
                ]
            | inr x ↦ absurd (ground arith)
          ]
      | inr x ↦ absurd (ground arith)
    ]

    -- If a rotation succeeds for a login without ':', the identifier that it gives reads back as that
    -- login and the name of the very token that the rotation has created: it has sent one request, the
    -- creation of a token of this login and this name.
    pub rotate-credential_id :
        (w : World) (r : Rotated)
        → (rotate env a req w).0 ≡ ok r
        → Text.contains b':' req.provider_id ≡ false
        → (name : String) × (parse_credential_id r.credential_id ≡ ok (req.provider_id, name))
          × ((rotate env a req w).1.trace
              ≡ slot_released adapter_name
                ∷ clock_read
                ∷ sent (generate_request a req.provider_id name (token_type_of req))
                ∷ clock_read
                ∷ random_read
                ∷ slot_taken adapter_name
                ∷ w.trace)
    unfolding rotate Text.length
    rotate-credential_id w r e f = elim (Option-cases (env.acquire w.trace adapter_name)) [
      | inl g ↦
          let u = record_event (slot_taken adapter_name) w in
          let held : (rotate_held env a req u).0 ≡ ok r =
            ground (arith, eq_iff req.provider_id "") in
          let given : req.provider_id ≢ "" = λ k. ground (arith, eq_iff req.provider_id "") in
          let (rest, made, sends) = held-credential_id u r held in
          (
            req.provider_id ++ "-" ++ rest,
            ap parse_credential_id made
                ∙ parse_credential_id-append req.provider_id (req.provider_id ++ "-" ++ rest) given
                    f (λ k. given ((append-eq-nil_iff.0 k).0)),
            ground (arith, eq_iff req.provider_id "", sends),
          )
      | inr (x, g) ↦ absurd (ground arith)
    ]
