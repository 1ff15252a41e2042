-- ===== src/SonarQube/Parsing.antt =====
-- What `parseCredentialID` of the SonarQube adapter reads back.
use Prim.Native.Char.{Char}
use Prim.Native.String.{[], ◌∷◌, ◌++◌}
use text.Mathlib.TextLemmas.{nil-append, cons-append, append_assoc}
use vault_secrets_broker.Prelude.{
  ℕ, suc, ◌+◌, String, ◌≡◌, refl, ap, ◌∙◌, ◌≢◌, false, arith, nat_eq,
}
use vault_secrets_broker.Prelude.Text
use vault_secrets_broker.Exec.{ok}
use vault_secrets_broker.SonarQube.{parse_credential_id}

length-pos : (s : String) → s ≢ "" → (n : ℕ) × (Text.length s ≡ suc n)
unfolding Text.length
length-pos [] h = absurd (h refl)
length-pos (c ∷ s) h = (Text.length s, refl)

abbrev colon : Char
colon = ":"

cut : (s t : String) → s ++ ":" ++ t ≡ s ++ (colon ∷ t)
cut s t = ap (λ u. s ++ u) (cons-append colon [] t ∙ ap (λ u. colon ∷ u) (nil-append t))

length-cut : (s t : String) → Text.length (s ++ (colon ∷ t)) ≡ Text.length s + (1 + Text.length t)
unfolding Text.length
length-cut s t = Text.length-append s (colon ∷ t) ∙ omega arith

-- The identifier that `Rotate` makes of a login without ':' and of a token name reads back as the two.
pub parse_credential_id-append :
    (login name : String)
    → login ≢ ""
    → Text.contains b':' login ≡ false
    → name ≢ ""
    → parse_credential_id (login ++ ":" ++ name) ≡ ok (login, name)
unfolding parse_credential_id
parse_credential_id-append login name h k n =
    let (i, e) = length-pos login h in
    let (j, f) = length-pos name n in
    rw (cut login name) (
      ground (
        arith,
        Text.index-append b':' login colon name k refl,
        Text.take-length-append login (colon ∷ name),
        Text.drop-length-append login colon name,
        length-cut login name,
      ))

assoc : (s t u : String) → (s ++ ":" ++ t) ++ ":" ++ u ≡ s ++ ":" ++ t ++ ":" ++ u
assoc s t u =
    append_assoc s (":" ++ t) (":" ++ u) ∙ ap (λ v. s ++ v) (append_assoc ":" t (":" ++ u))

length-colon : (s t : String) → Text.length (s ++ ":" ++ t) ≡ Text.length s + (1 + Text.length t)
length-colon s t = ap Text.length (cut s t) ∙ length-cut s t

-- A login that holds a ':' is not read back: the part of it before its first ':' is, and the rest of
-- it counts for the token's name.
parse_credential_id-colon :
    (left right name : String)
    → left ≢ ""
    → Text.contains b':' left ≡ false
    → (parse_credential_id ((left ++ ":" ++ right) ++ ":" ++ name)
        ≡ ok (left, right ++ ":" ++ name))
      × (left ≢ left ++ ":" ++ right)
unfolding Text.length
parse_credential_id-colon left right name h k = (
  ap parse_credential_id (assoc left right name)
      ∙ parse_credential_id-append left (right ++ ":" ++ name) h k
          (λ e. omega (arith, ap Text.length e, length-colon right name)),
  λ e. omega (arith, ap Text.length e, length-colon left right),
)
