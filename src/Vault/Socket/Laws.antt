-- ===== src/Vault/Socket/Laws.antt =====
-- Which socket addresses pass.
use Prim.Native.Char.{code}
use Prim.Native.String.{[], ◌∷◌, ◌++◌, len}
use text.Mathlib.TextLemmas.{nil-append, cons-append}
use text.Mathlib.TextEquality.{Char-path}
use vault_secrets_broker.Prelude.{
  ◌≤◌, String, ◌≡◌, sym, ap, ◌∙◌, ◌⊎◌, inl, inr, false, some, arith, ◌==◌, nat_eq, Bool-cases,
  Option-cases,
}
use vault_secrets_broker.Prelude.Text
use vault_secrets_broker.Exec.{ok}
use vault_secrets_broker.Vault.Socket.{validate_spiffe_socket}

-- What `strip_prefix` leaves is what follows the prefix.
strip_prefix-some : (p s t : String) → Text.strip_prefix p s ≡ some t → s ≡ p ++ t
unfolding Text.strip_prefix
strip_prefix-some [] s t e = ground (arith, sym (nil-append t))
strip_prefix-some (d ∷ p) [] t e = cc e
strip_prefix-some (d ∷ p) (c ∷ s) t e = elim (Bool-cases (code c == code d)) [
  | inl f ↦ rw cons-append (
      ap (λ x. x ∷ s) (Char-path c d (ground arith))
      ∙ ap (λ u. d ∷ u) (strip_prefix-some p s t (ground arith)))
  | inr f ↦ absurd (ground arith)
]

-- A TCP address, or a path of a Unix socket without "..", of at most 512 bytes.
abbrev pub Allowed : (addr : String) → Type 0
Allowed addr =
    (len addr ≤ 512)
    × (((path : String) × (addr ≡ "unix://" ++ path) × (Text.has_dots path ≡ false))
        ⊎ ((rest : String) × (addr ≡ "tcp://" ++ rest)))

pub validate_spiffe_socket-ok : (addr : String) → validate_spiffe_socket addr ≡ ok tt → Allowed addr
unfolding validate_spiffe_socket
validate_spiffe_socket-ok addr e = (
  ground arith,
  elim (Option-cases (Text.strip_prefix "unix://" addr)) [
    | inr (path, f) ↦ inl (path, strip_prefix-some "unix://" addr path f, ground arith)
    | inl f ↦ elim (Option-cases (Text.strip_prefix "tcp://" addr)) [
      | inr (rest, g) ↦ inr (rest, strip_prefix-some "tcp://" addr rest g)
      | inl g ↦ absurd (ground arith)
    ]
  ],
)
