-- ===== src/Prelude/Int.antt =====
-- Signed integers over the native numbers, and the wrap-around of Go's int64.
use Prim.Native.Nat.{ℕ, suc, ◌+◌, ◌-◌, ◌*◌, ◌%◌, ◌^◌, ◌<◌}
use mathlib.Core.Path.{◌≡◌}
use mathlib.Core.Bool.{Bool}
use mathlib.Core.Logic.{◌≢◌}
use native.Mathlib.Omega.{arith}
use vault_secrets_broker.Prelude.Tests.{ltb, leb, if◌then◌else◌}

-- `negsuc n` is -(n + 1).
pub data ℤ : Type 0 where
  pos : ℕ → ℤ
  negsuc : ℕ → ℤ

abbrev pub pos_part : ℤ → ℕ
pos_part (pos n) = n
pos_part (negsuc n) = 0

abbrev pub neg_part : ℤ → ℕ
neg_part (pos n) = 0
neg_part (negsuc n) = suc n

abbrev pub sub_ℕ : ℕ → ℕ → ℤ
sub_ℕ a b = if leb b a then pos (a - b) else negsuc (b - a - 1)

infixl 65 ◌+ℤ◌
infixl 70 ◌*ℤ◌
abbrev pub ◌+ℤ◌ : ℤ → ℤ → ℤ
a +ℤ b = sub_ℕ (pos_part a + pos_part b) (neg_part a + neg_part b)

abbrev pub ◌*ℤ◌ : ℤ → ℤ → ℤ
a *ℤ b =
    sub_ℕ (pos_part a * pos_part b + neg_part a * neg_part b)
      (pos_part a * neg_part b + neg_part a * pos_part b)

abbrev pub ltb_ℤ : ℤ → ℤ → Bool
ltb_ℤ a b = ltb (pos_part a + neg_part b) (pos_part b + neg_part a)

-- The value of an int64 expression whose mathematical value is the argument.
unfoldable pub wrap_64 : ℤ → ℤ
wrap_64 (pos n) = let m = n % 2 ^ 64 in if ltb m (2 ^ 63) then pos m else negsuc (2 ^ 64 - 1 - m)
wrap_64 (negsuc n) = let m = n % 2 ^ 64 in if ltb m (2 ^ 63) then negsuc m else pos (2 ^ 64 - 1 - m)

pub wrap_64-pos : (n : ℕ) → n < 2 ^ 63 → wrap_64 (pos n) ≡ pos n
unfolding wrap_64
wrap_64-pos n h = ground arith

-- A number of seconds in nanoseconds is even, also where it wraps.
pub wrap_64-ne-one : (n : ℤ) → wrap_64 (n *ℤ pos 1000000000) ≢ pos 1
unfolding wrap_64
wrap_64-ne-one (pos n) e = ground arith
wrap_64-ne-one (negsuc n) e = ground arith
