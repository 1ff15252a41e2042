-- ===== src/Exec.antt =====
-- What a Go call gives back, and actions on a state.
-- An `error` value is the tree of the messages that `errors.New` and `fmt.Errorf` are called with:
-- the text of a message is computed from it by Go's formatting, which is not modelled.
use vault_secrets_broker.Prelude.{
  ◌≡◌, refl, ◌⊎◌, inl, inr, ℕ, String, Bool, true, false, Option, none, some,
}
use vault_secrets_broker.Json.{Payload}

pub data Error : Type 0 where
  -- errors.New, and Errorf with no error inside
  msg : String → Error
  -- Errorf("text %q", arg)
  named : String → String → Error
  -- Errorf("text: %w", err)
  wrap : String → Error → Error
  -- Errorf("text %q: %w", arg, err)
  about : String → String → Error → Error
  -- Errorf("unexpected status %d: %s", status, body)
  status : ℕ → Payload → Error
  -- Errorf("unexpected status %d", status)
  status_only : ℕ → Error
  -- the error of json.Unmarshal
  decode : Error

-- `panic` is a run-time panic or a call of `panic`.
pub data Result {ℓ} (A : Type ℓ) : Type ℓ where
  ok : A → Result A
  err : Error → Result A
  panic : String → Result A

pub Result-cases :
    {A : Type 0} (r : Result A)
    → ((a : A) × (r ≡ ok a)) ⊎ (((e : Error) × (r ≡ err e)) ⊎ ((p : String) × (r ≡ panic p)))
Result-cases (ok a) = inl (a, refl)
Result-cases (err e) = inr (inl (e, refl))
Result-cases (panic p) = inr (inr (p, refl))

-- A call that reads and changes the state `S`. What was changed before an error or a panic stays.
abbrev pub Exec {ℓ} : Type ℓ → Type ℓ → Type ℓ
Exec S A = S → Result A × S

-- `if !b { return e }`
abbrev pub require {ℓ} : {S : Type ℓ} → Bool → Error → Exec S Unit
require true e s = (ok tt, s)
require false e s = (err e, s)

module _ {ℓ} {S A : Type ℓ} where
  abbrev pub pure : A → Exec S A
  pure a s = (ok a, s)

  abbrev pub fail : Error → Exec S A
  fail e s = (err e, s)

  abbrev pub crash : String → Exec S A
  crash m s = (panic m, s)

  abbrev pub lift : Result A → Exec S A
  lift r s = (r, s)

  abbrev pub or_fail : Error → Option A → Exec S A
  or_fail e none s = (err e, s)
  or_fail e (some a) s = (ok a, s)

module _ {ℓ} {S A B : Type ℓ} where
  abbrev pub continue : Result A → (A → Exec S B) → Exec S B
  continue (ok a) f s = f a s
  continue (err e) f s = (err e, s)
  continue (panic m) f s = (panic m, s)

  infixl 10 ◌>>=◌ ◌>>◌
  abbrev pub ◌>>=◌ : Exec S A → (A → Exec S B) → Exec S B
  ◌>>=◌ first rest w = let (given, after) = first w in continue given rest after

  -- a statement whose value nothing uses
  abbrev pub ◌>>◌ : (first : Exec S A) → (rest : Exec S B) → Exec S B
  ◌>>◌ first rest = first >>= λ unused. rest

  -- `defer`: the second action runs after the first, whatever that gives back
  abbrev pub finally : Exec S A → Exec S B → Exec S A
  finally m after s = let (r, s') = m s in let (q, s'') = after s' in (r, s'')

abbrev pub map_err {ℓ} : {A : Type ℓ} → (Error → Error) → Result A → Result A
map_err f (ok a) = ok a
map_err f (err e) = err (f e)
map_err f (panic m) = panic m

module _ {ℓ} {S A : Type ℓ} where
  -- `if err != nil { return fmt.Errorf("…: %w", err) }`
  abbrev pub context : (Error → Error) → Exec S A → Exec S A
  context f m s = let (r, s') = m s in (map_err f r, s')

  -- `a, err := f()`: the error as a value, so that the caller looks at it; a panic goes on
  abbrev pub attempt : Exec S A → Exec S (Result A)
  attempt m s =
      let (r, s') = m s in
      elim r [ ok a ↦ (ok (ok a), s') | err e ↦ (ok (err e), s') | panic p ↦ (panic p, s') ]
