-- ===== src/Prelude/Decimal.antt =====
-- Decimal numbers: `strconv.Atoi`, `strconv.FormatInt(n, 10)` and `%d`, for Go's 64-bit int.
use Prim.Native.Nat.{ℕ, zero, suc, ◌+◌, ◌-◌, ◌*◌, ◌/◌, ◌%◌, ◌^◌}
use Prim.Native.Char.{Char, code}
use Prim.Native.String.{String, [], ◌∷◌, ◌++◌}
use mathlib.Core.Path.{◌≡◌, refl}
use mathlib.Core.Bool.{true, false, ◌&&◌}
use mathlib.Core.Option.{Option, none, some}
use mathlib.Core.List
use vault_secrets_broker.Prelude.Tests.{leb, ◌==◌, nat_eq, if◌then◌else◌}
use vault_secrets_broker.Prelude.Lists.{get_or}
use vault_secrets_broker.Prelude.Int.{ℤ, pos, negsuc}

abbrev digit_chars : List.List Char
digit_chars = List.◌∷◌ "0" (
    List.◌∷◌ "1" (
      List.◌∷◌ "2" (
        List.◌∷◌ "3" (
          List.◌∷◌ "4"
            (List.◌∷◌ "5" (List.◌∷◌ "6" (List.◌∷◌ "7" (List.◌∷◌ "8" (List.◌∷◌ "9" List.[])))))))))

-- An int64 has at most 19 digits.
show_digits : ℕ → ℕ → String → String
show_digits zero n acc = acc
show_digits (suc fuel) n acc =
    let next = get_or digit_chars (n % 10) "0" ∷ acc in
    let rest = show_digits fuel (n / 10) next in if n / 10 == 0 then next else rest

unfoldable pub format_int : ℤ → String
unfolding show_digits
format_int (pos n) = show_digits 20 n ""
format_int (negsuc n) = "-" ++ show_digits 20 (n + 1) ""

read_digits : ℕ → String → Option ℕ
read_digits acc [] = some acc
read_digits acc (c ∷ s) = elim (leb 48 (code c) && leb (code c) 57) [
  | true ↦ read_digits (acc * 10 + (code c - 48)) s
  | false ↦ none
]

-- at least one digit, and in the range of an int
magnitude : ℕ → String → Option ℕ
unfolding read_digits
magnitude bound [] = none
magnitude bound (c ∷ s) = elim (read_digits 0 (c ∷ s)) [
  | none ↦ none
  | some n ↦ if leb n bound then some n else none
]

abbrev negative : ℕ → ℤ
negative zero = pos 0
negative (suc n) = negsuc n

unfoldable pub atoi : String → Option ℤ
unfolding magnitude
atoi [] = none
atoi (c ∷ s) =
    if code c == b'-'
    then elim (magnitude (2 ^ 63) s) [ none ↦ none | some n ↦ some (negative n) ]
    else elim (if code c == b'+'
        then magnitude (2 ^ 63 - 1) s
        else magnitude (2 ^ 63 - 1) (c ∷ s)) [ none ↦ none | some n ↦ some (pos n) ]

atoi_test : atoi "-042" ≡ some (negsuc 41)
unfolding atoi
atoi_test = refl

atoi_large : atoi "9223372036854775808" ≡ none
unfolding atoi
atoi_large = refl

format_test : format_int (negsuc 1209) ≡ "-1210"
unfolding format_int
format_test = refl
