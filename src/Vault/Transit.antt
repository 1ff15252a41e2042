-- ===== src/Vault/Transit.antt =====
-- The round trip through Vault's Transit engine.
use Prim.Native.String.{◌++◌}
use vault_secrets_broker.Prelude.{
  String, ◌≡◌, refl, ◌≢◌, ◌⊎◌, inl, inr, Option, none, some, List, arith, eq_iff, string_eq,
}
use vault_secrets_broker.Json.{Json, null, bool, num, frac, str, arr, obj, field, end}
use vault_secrets_broker.Exec.{Error, ok}
use vault_secrets_broker.Net.{World, Env, Event, Secret, secret, nil_secret, VaultReply, refused}
use vault_secrets_broker.Vault.{Base64, lookup_field, as_string, transit_encrypt, transit_decrypt}

as_string-inv : (o : Option Json) (s : String) → as_string o ≡ s → s ≢ "" → o ≡ some (str s)
as_string-inv none s e h = absurd (h (ground arith))
as_string-inv (some (str t)) s e h = ground arith
as_string-inv (some null) s e h = absurd (h (ground arith))
as_string-inv (some (bool b)) s e h = absurd (h (ground arith))
as_string-inv (some (num n)) s e h = absurd (h (ground arith))
as_string-inv (some frac) s e h = absurd (h (ground arith))
as_string-inv (some (arr js)) s e h = absurd (h (ground arith))
as_string-inv (some (obj fs)) s e h = absurd (h (ground arith))

pub VaultReply-cases :
    (r : VaultReply)
    → ((s : Secret) × (r ≡ secret s)) ⊎ ((r ≡ nil_secret) ⊎ ((e : Error) × (r ≡ refused e)))
VaultReply-cases (secret s) = inl (s, refl)
VaultReply-cases nil_secret = inr (inl refl)
VaultReply-cases (refused e) = inr (inr (e, refl))

module _ (env : Env) (base64 : Base64) (key_name : String) where
  -- What Vault documents of a Transit key: where it answers a request to decrypt a ciphertext that it
  -- gave for a plaintext, the answer holds that plaintext. It may refuse the request.
  abbrev pub Faithful : Type 0
  Faithful =
      (t u : List Event) (token token' x ct : String) (s s' : Secret)
      → env.vault_write t token ("transit/encrypt/" ++ key_name) (field "plaintext" (str x) end)
        ≡ secret s
      → lookup_field "ciphertext" s.content ≡ some (str ct)
      → env.vault_write u token' ("transit/decrypt/" ++ key_name) (field "ciphertext" (str ct) end)
        ≡ secret s'
      → lookup_field "plaintext" s'.content ≡ some (str x)

  -- The same of a Vault that refuses none of these requests, whichever token they come with.
  abbrev pub Honest : Type 0
  Honest =
      (t u : List Event) (token token' x ct : String) (s : Secret)
      → env.vault_write t token ("transit/encrypt/" ++ key_name) (field "plaintext" (str x) end)
        ≡ secret s
      → lookup_field "ciphertext" s.content ≡ some (str ct)
      → (s' : Secret) × (env.vault_write u token' ("transit/decrypt/" ++ key_name)
            (field "ciphertext" (str ct) end)
          ≡ secret s')
        × (lookup_field "plaintext" s'.content ≡ some (str x))

  abbrev pub Decodes : Type 0
  Decodes = (s : String) → base64.decode_string (base64.encode_to_string s) ≡ some s

  pub transit_encrypt-ok :
      (p ct : String) (w : World)
      → (transit_encrypt env base64 key_name p w).0 ≡ ok ct
      → (s : Secret) × (env.vault_write w.trace w.token
            ("transit/encrypt/" ++ key_name)
            (field "plaintext" (str (base64.encode_to_string p)) end)
          ≡ secret s)
        × (lookup_field "ciphertext" s.content ≡ some (str ct))
  unfolding transit_encrypt
  transit_encrypt-ok p ct w e =
      elim (VaultReply-cases (
        env.vault_write w.trace w.token ("transit/encrypt/" ++ key_name)
          (field "plaintext" (str (base64.encode_to_string p)) end))) [
            | inl (s, f) ↦ (
              s,
              f,
              as_string-inv (lookup_field "ciphertext" s.content) ct (ground arith)
                  (ground (arith, eq_iff ct "")),
            )
            | inr (inl f) ↦ absurd (ground arith)
            | inr (inr (x, f)) ↦ absurd (ground arith)
          ]

  -- If Vault's Transit engine gives back, where it answers, the plaintext of a ciphertext that it gave,
  -- and base64 decodes what it encodes: what was encrypted with a key decrypts to the same text, at any
  -- time and with any token, wherever Vault does answer the request to decrypt. The base64 text of it
  -- is not empty.
  pub transit_decrypt-encrypt :
      Faithful
      → Decodes
      → (p ct : String) (w u : World) (s : Secret) → base64.encode_to_string p ≢ ""
      → (transit_encrypt env base64 key_name p w).0 ≡ ok ct
      → env.vault_write u.trace u.token
          ("transit/decrypt/" ++ key_name)
          (field "ciphertext" (str ct) end)
        ≡ secret s
      → (transit_decrypt env base64 key_name ct u).0 ≡ ok p
  unfolding transit_decrypt
  transit_decrypt-encrypt faithful decodes p ct w u s h e read =
      let (sealed, wrote, found) = transit_encrypt-ok p ct w e in
      let back =
        faithful w.trace u.trace w.token u.token (base64.encode_to_string p) ct sealed s wrote found
          read in
      ground (arith, eq_iff (base64.encode_to_string p) "", decodes p, read, back)

  -- Where Vault refuses no such request, the decryption is answered.
  pub transit_decrypt-Honest :
      Honest
      → Decodes
      → (p ct : String) (w u : World) → base64.encode_to_string p ≢ ""
      → (transit_encrypt env base64 key_name p w).0 ≡ ok ct
      → (transit_decrypt env base64 key_name ct u).0 ≡ ok p
  transit_decrypt-Honest honest decodes p ct w u h e =
      let (sealed, wrote, found) = transit_encrypt-ok p ct w e in
      let (s, read, back) =
        honest w.trace u.trace w.token u.token (base64.encode_to_string p) ct sealed wrote found in
      transit_decrypt-encrypt
        (λ t v token token' x c s0 s1 f g r.
          let (s2, read2, back2) = honest t v token token' x c s0 f g in ground (arith, back2))
        decodes p ct w u s h e read
