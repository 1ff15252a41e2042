-- ===== src/Adapter/Shared/Sanitize.antt =====
-- What `sanitizeForLog` lets through.
use Prim.Native.Char.{Char, code}
use Prim.Native.String.{String, [], ◌∷◌, ◌++◌}
use text.Mathlib.TextLemmas.{nil-append, cons-append}
use vault_secrets_broker.Prelude.{
  ℕ, ◌+◌, ◌≤◌, ◌<◌, ◌≡◌, refl, ap, sym, ◌∙◌, ◌≢◌, true, false, arith, leb, nat_eq, Bool-cases, inl,
  inr,
}
use vault_secrets_broker.Prelude.Text
use vault_secrets_broker.Adapter.Shared.{sanitize_from, sanitize_for_log, is_control}

-- No ASCII control character: a log line stays one line.
abbrev pub IsPrintable : String → Type 0
IsPrintable [] = Unit
IsPrintable (c ∷ s) = (0x20 ≤ code c) × (code c ≢ 0x7f) × IsPrintable s

-- One round of the loop: a control character is dropped, the 256th rune written is followed by the
-- mark, and any other rune is copied.
data Round (n : ℕ) (c : Char) (s : String) : Type 0 where
  dropped : is_control c ≡ true → sanitize_from n (c ∷ s) ≡ sanitize_from n s → Round n c s
  full : is_control c ≡ false → 256 ≤ n + 1 → sanitize_from n (c ∷ s) ≡ c ∷ "…" → Round n c s
  copied :
      is_control c ≡ false
      → n + 1 < 256
      → sanitize_from n (c ∷ s) ≡ c ∷ sanitize_from (n + 1) s
      → Round n c s

round : (n : ℕ) (c : Char) (s : String) → Round n c s
unfolding sanitize_from
round n c s = elim (Bool-cases (is_control c)) [
  | inl e ↦ dropped e (rw (e, sanitize_from))
  | inr e ↦ elim (Bool-cases (leb 256 (n + 1))) [
    | inl f ↦ full e (ground arith) (rw (e, f, sanitize_from))
    | inr f ↦ copied e (ground arith) (rw (e, f, sanitize_from))
  ]
]

IsPrintable-cons :
    (c : Char) (s : String) → is_control c ≡ false → IsPrintable s → IsPrintable (c ∷ s)
IsPrintable-cons c s e h = (ground arith, ground arith, h)

sanitize_from-IsPrintable : (n : ℕ) (s : String) → IsPrintable (sanitize_from n s)
sanitize_from-IsPrintable n [] = unfold sanitize_from in tt
sanitize_from-IsPrintable n (c ∷ s) = elim (round n c s) [
  | dropped e f ↦ rw f (sanitize_from-IsPrintable n s)
  | full e h f ↦ rw f (IsPrintable-cons c "…" e (omega arith))
  | copied e h f ↦ rw f (IsPrintable-cons c _ e (sanitize_from-IsPrintable (n + 1) s))
]

sanitize_from-length : (n : ℕ) (s : String) → n < 256 → Text.length (sanitize_from n s) + n ≤ 257
unfolding Text.length
sanitize_from-length n [] h = unfold sanitize_from in omega arith
sanitize_from-length n (c ∷ s) h = elim (round n c s) [
  | dropped e f ↦ rw f (sanitize_from-length n s h)
  | full e k f ↦ rw f (omega arith)
  | copied e k f ↦ rw f (omega (arith, sanitize_from-length (n + 1) s k))
]

-- Whatever the text, what sanitize_for_log makes of it holds no ASCII control character (none below
-- 0x20, and no DEL) and at most 257 characters.
pub sanitize_for_log-IsPrintable :
    (s : String) → IsPrintable (sanitize_for_log s) × (Text.length (sanitize_for_log s) ≤ 257)
unfolding sanitize_for_log
sanitize_for_log-IsPrintable s =
    (sanitize_from-IsPrintable 0 s, omega (arith, sanitize_from-length 0 s (omega arith)))

step_full :
    (n : ℕ) (c : Char) (s : String)
    → is_control c ≡ false
    → 256 ≤ n + 1
    → sanitize_from n (c ∷ s) ≡ c ∷ "…"
step_full n c s e h = elim (round n c s) [
  | dropped e' f ↦ cc
  | full e' k f ↦ f
  | copied e' k f ↦ absurd (omega arith)
]

step_copied :
    (n : ℕ) (c : Char) (s : String)
    → is_control c ≡ false
    → n + 1 < 256
    → sanitize_from n (c ∷ s) ≡ c ∷ sanitize_from (n + 1) s
step_copied n c s e h = elim (round n c s) [
  | dropped e' f ↦ cc
  | full e' k f ↦ absurd (omega arith)
  | copied e' k f ↦ f
]

sanitize_from_idem : (n : ℕ) (s : String) → sanitize_from n (sanitize_from n s) ≡ sanitize_from n s
sanitize_from_idem n [] = unfold sanitize_from in refl
sanitize_from_idem n (c ∷ s) = elim (round n c s) [
  | dropped e f ↦ rw f (sanitize_from_idem n s)
  | full e h f ↦ rw f (step_full n c "…" e h)
  | copied e h f ↦ rw f (step_copied n c _ e h ∙ ap (λ t. c ∷ t) (sanitize_from_idem (n + 1) s))
]

-- Sanitising twice is sanitising once.
pub sanitize_for_log_idem :
    (s : String) → sanitize_for_log (sanitize_for_log s) ≡ sanitize_for_log s
unfolding sanitize_for_log
sanitize_for_log_idem s = sanitize_from_idem 0 s

not-control : (c : Char) → 0x20 ≤ code c → code c ≢ 0x7f → is_control c ≡ false
not-control c h k = ground arith

-- A printable text is copied, and the mark follows its 256th character if it has one.
sanitize_from_short :
    (n : ℕ) (s : String) → IsPrintable s → Text.length s + n < 256 → sanitize_from n s ≡ s
unfolding Text.length
sanitize_from_short n [] h k = unfold sanitize_from in refl
sanitize_from_short n (c ∷ s) (low, high, h) k =
    step_copied n c s (not-control c low high) (omega arith)
    ∙ ap (λ t. c ∷ t) (sanitize_from_short (n + 1) s h (omega arith))

sanitize_from_full :
    (n : ℕ) (s : String)
    → IsPrintable s
    → n < 256
    → Text.length s + n ≡ 256
    → sanitize_from n s ≡ s ++ "…"
unfolding Text.length
sanitize_from_full n [] h k e = absurd (omega arith)
sanitize_from_full n (c ∷ []) (low, high, h) k e =
    step_full n c [] (not-control c low high) (omega arith) ∙ sym (rw (cons-append, nil-append))
sanitize_from_full n (c ∷ (d ∷ s)) (low, high, h) k e =
    step_copied n c (d ∷ s) (not-control c low high) (omega arith)
    ∙ ap (λ t. c ∷ t) (sanitize_from_full (n + 1) (d ∷ s) h (omega arith) (omega arith))
    ∙ sym (cons-append c (d ∷ s) "…")

-- A printable text of fewer than 256 characters is logged as it is; one of exactly 256 characters,
-- from which nothing is cut, is logged with the mark of a cut behind it.
sanitize_for_log_short :
    (s : String)
    → IsPrintable s
    → (Text.length s < 256 → sanitize_for_log s ≡ s)
      × (Text.length s ≡ 256 → sanitize_for_log s ≡ s ++ "…")
unfolding sanitize_for_log
sanitize_for_log_short s h = (
  λ k. sanitize_from_short 0 s h (omega arith),
  λ e. sanitize_from_full 0 s h (omega arith) (omega arith),
)
