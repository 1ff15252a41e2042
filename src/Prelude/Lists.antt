-- ===== src/Prelude/Lists.antt =====
-- Lists measured by native numbers, and a predicate on all elements.
use Prim.Native.Nat.{ℕ, zero, suc, ◌+◌}
use mathlib.Core.Path.{◌≡◌}
use mathlib.Core.Bool.{Bool, false, ◌||◌}
use mathlib.Core.List.{List, [], ◌∷◌, ◌++◌}
use native.Mathlib.Omega.{arith}

module _ {ℓ} {A : Type ℓ} where
  abbrev pub length : List A → ℕ
  length [] = 0
  length (x ∷ xs) = suc (length xs)

  abbrev pub get_or : List A → ℕ → A → A
  get_or [] i d = d
  get_or (x ∷ xs) zero d = x
  get_or (x ∷ xs) (suc i) d = get_or xs i d

  abbrev pub any : (A → Bool) → List A → Bool
  any p [] = false
  any p (x ∷ xs) = p x || any p xs

  pub length-append : (xs ys : List A) → length (xs ++ ys) ≡ length xs + length ys
  length-append [] ys = omega arith
  length-append (x ∷ xs) ys = omega (arith, length-append xs ys)

module _ {ℓ} {A : Type ℓ} (f : A → ℕ) where
  -- the sum of a weight over a list
  unfoldable pub count : List A → ℕ
  count [] = 0
  count (x ∷ xs) = f x + count xs

  pub count-middle :
      (before : List A) (x : A) (after : List A)
      → count (before ++ x ∷ after) ≡ f x + count before + count after
  unfolding count
  count-middle [] x after = omega arith
  count-middle (y ∷ before) x after = omega (arith, count-middle before x after)

module _ {ℓ κ} {A : Type ℓ} (P : A → Type κ) where
  abbrev pub All : List A → Type κ
  All [] = Unit
  All (x ∷ xs) = P x × All xs

  pub All-append : (xs ys : List A) → All xs → All ys → All (xs ++ ys)
  All-append [] ys h k = k
  All-append (x ∷ xs) ys (p, h) k = (p, All-append xs ys h k)

  pub All-replace :
      (before after : List A) (x y : A)
      → All (before ++ x ∷ after)
      → P y
      → All (before ++ y ∷ after)
  All-replace [] after x y (p, ps) q = (q, ps)
  All-replace (z ∷ before) after x y (p, ps) q = (p, All-replace before after x y ps q)
