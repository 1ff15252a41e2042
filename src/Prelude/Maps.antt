-- ===== src/Prelude/Maps.antt =====
-- Go's maps with string keys, as association lists: the program never relies on their order.
use mathlib.Core.Path.{◌≡◌, refl}
use mathlib.Core.Option.{Option, none, some}
use mathlib.Core.List.{List, [], ◌∷◌}
use Prim.Native.String.{String}
use native.Mathlib.Omega.{arith}
use text.Mathlib.TextEquality.{eq_iff}
use vault_secrets_broker.Prelude.Tests.{◌==◌, string_eq, if◌then◌else◌}

module _ {ℓ} {V : Type ℓ} where
  -- v, ok := m[k]
  unfoldable pub lookup : String → List (String × V) → Option V
  lookup k [] = none
  lookup k ((j, v) ∷ m) = if j == k then some v else lookup k m

  -- m[k] = v
  unfoldable pub insert : String → V → List (String × V) → List (String × V)
  insert key new [] = (key, new) ∷ []
  insert key new ((held, old) ∷ entries) =
      if held == key then (key, new) ∷ entries else (held, old) ∷ insert key new entries

  unfoldable pub keys : List (String × V) → List String
  keys [] = []
  keys ((j, v) ∷ m) = j ∷ keys m

  pub lookup-insert :
      (written key : String) (new : V) (entries : List (String × V))
      → lookup key (insert written new entries)
        ≡ (if written == key then some new else lookup key entries)
  unfolding lookup insert
  lookup-insert written key new [] = refl
  lookup-insert written key new ((held, old) ∷ entries) = ground (
    arith,
    eq_iff held key,
    eq_iff written key,
    eq_iff held written,
    lookup-insert written key new entries,
  )

-- if v, ok := m[k]; ok && v != "" { … }
unfoldable pub lookup_nonempty : String → List (String × String) → Option String
unfolding lookup
lookup_nonempty k m = elim (lookup k m) [ none ↦ none | some v ↦ if v == "" then none else some v ]
