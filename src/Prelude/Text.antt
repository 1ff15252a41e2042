-- ===== src/Prelude/Text.antt =====
-- Texts as sequences of code points: the parts of Go's `strings` that the program calls.
-- Positions count characters; the program only looks for ASCII characters, so that the same
-- characters are found as by a search over bytes.
use Prim.Native.Nat.{ℕ, zero, suc, ◌+◌}
use Prim.Native.Char.{Char, code}
use Prim.Native.String.{String, [], ◌∷◌, ◌++◌}
use mathlib.Core.Path.{◌≡◌, refl, ap}
use mathlib.Core.Bool.{Bool, true, false, ◌||◌, ◌&&◌}
use mathlib.Core.Option
use mathlib.Core.Option.{Option, none, some}
use mathlib.Core.List.{List}
use native.Mathlib.Omega.{arith}
use text.Mathlib.TextLemmas.{nil-append, cons-append}
use vault_secrets_broker.Prelude.Tests.{leb, ◌==◌, nat_eq, if◌then◌else◌}

unfoldable pub length : String → ℕ
length [] = 0
length (c ∷ s) = suc (length s)

unfoldable pub take : ℕ → String → String
take zero s = []
take (suc n) [] = []
take (suc n) (c ∷ s) = c ∷ take n s

unfoldable pub drop : ℕ → String → String
drop zero s = s
drop (suc n) [] = []
drop (suc n) (c ∷ s) = drop n s

-- strings.IndexByte; `none` is -1
unfoldable pub index : ℕ → String → Option ℕ
index b [] = none
index b (c ∷ s) = if code c == b then some 0 else Option.map suc (index b s)

unfoldable pub contains : ℕ → String → Bool
contains b [] = false
contains b (c ∷ s) = code c == b || contains b s

-- strings.TrimRight(s, "/")
unfoldable pub trim_slashes : String → String
trim_slashes [] = []
trim_slashes (c ∷ s) =
    let rest = trim_slashes s in
    elim rest [ [] ↦ if code c == b'/' then [] else c ∷ [] | d ∷ t ↦ c ∷ (d ∷ t) ]

-- strings.HasPrefix and strings.TrimPrefix together: what follows the prefix
unfoldable pub strip_prefix : String → String → Option String
strip_prefix [] s = some s
strip_prefix (d ∷ p) [] = none
strip_prefix (d ∷ p) (c ∷ s) = if code c == code d then strip_prefix p s else none

-- strings.Contains(s, "..")
unfoldable pub has_dots : String → Bool
has_dots [] = false
has_dots (c ∷ []) = false
has_dots (c ∷ (d ∷ s)) = (code c == b'.' && code d == b'.') || has_dots (d ∷ s)

-- Unicode White_Space, as `unicode.IsSpace` has it
abbrev is_space : Char → Bool
is_space c =
    let r = code c in
    (leb 9 r && leb r 13)
    || r == 32
    || r == 0x85
    || r == 0xa0
    || r == 0x1680
    || (leb 0x2000 r && leb r 0x200a)
    || r == 0x2028
    || r == 0x2029
    || r == 0x202f
    || r == 0x205f
    || r == 0x3000

trim_left : String → String
trim_left [] = []
trim_left (c ∷ s) = if is_space c then trim_left s else c ∷ s

trim_right : String → String
trim_right [] = []
trim_right (c ∷ s) =
    let rest = trim_right s in
    elim rest [ [] ↦ if is_space c then [] else c ∷ [] | d ∷ t ↦ c ∷ (d ∷ t) ]

-- strings.TrimSpace
unfoldable pub trim_space : String → String
unfolding trim_left trim_right
trim_space s = trim_right (trim_left s)

split_from : String → String → List String
split_from cur [] = List.◌∷◌ cur List.[]
split_from cur (c ∷ s) = elim (code c == b',') [
  | true ↦ List.◌∷◌ cur (split_from [] s)
  | false ↦ split_from (cur ++ (c ∷ [])) s
]

-- strings.Split(s, ",")
unfoldable pub split_commas : String → List String
unfolding split_from
split_commas s = split_from [] s

split_test :
    split_commas "a, b,," ≡ List.◌∷◌ "a" (List.◌∷◌ " b" (List.◌∷◌ "" (List.◌∷◌ "" List.[])))
unfolding split_commas
split_test = refl

trim_test : trim_space "  a b  " ≡ "a b"
unfolding trim_space
trim_test = refl

trim_slashes_test : trim_slashes "https://x//" ≡ "https://x"
unfolding trim_slashes
trim_slashes_test = refl

dots_test : has_dots "a/../b" ≡ true
unfolding has_dots
dots_test = refl

pub take-length-append : (s t : String) → take (length s) (s ++ t) ≡ s
unfolding take length
take-length-append [] t = refl
take-length-append (c ∷ s) t = rw cons-append (ap (λ r. c ∷ r) (take-length-append s t))

pub drop-length-append :
    (s : String) (c : Char) (t : String) → drop (suc (length s)) (s ++ (c ∷ t)) ≡ t
unfolding drop length
drop-length-append [] c t = rw nil-append
drop-length-append (d ∷ s) c t = rw cons-append (drop-length-append s c t)

pub length-append : (s t : String) → length (s ++ t) ≡ length s + length t
unfolding length
length-append [] t = rw nil-append (omega arith)
length-append (c ∷ s) t = rw cons-append (omega (arith, length-append s t))

-- The first position of a character that the part before it does not hold.
pub index-append :
    (b : ℕ) (s : String) (c : Char) (t : String)
    → contains b s ≡ false
    → code c ≡ b
    → index b (s ++ (c ∷ t)) ≡ some (length s)
unfolding index contains length
index-append b [] c t h e = rw nil-append (ground arith)
index-append b (d ∷ s) c t h e = rw cons-append (ground (arith, index-append b s c t))
