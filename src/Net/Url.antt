-- ===== src/Net/Url.antt =====
-- Percent-encoding and hex digits: `url.PathEscape`, `url.QueryEscape` and `hex.EncodeToString`
-- of Go's standard library, over the UTF-8 bytes of a text.
use Prim.Native.Char.{Char, code}
use Prim.Native.String.{◌++◌}
use vault_secrets_broker.Prelude.{
  ℕ, ◌+◌, ◌/◌, ◌%◌, String, ◌≡◌, refl, Bool, ◌&&◌, ◌||◌, List, [], ◌∷◌, ltb, leb, ◌==◌, nat_eq,
  if◌then◌else◌, get_or,
}

abbrev lower_digits : List Char
lower_digits =
    "0" ∷ "1" ∷ "2" ∷ "3" ∷ "4" ∷ "5" ∷ "6" ∷ "7" ∷ "8" ∷ "9" ∷ "a" ∷ "b" ∷ "c" ∷ "d" ∷ "e" ∷ "f"
    ∷ []

abbrev upper_digits : List Char
upper_digits =
    "0" ∷ "1" ∷ "2" ∷ "3" ∷ "4" ∷ "5" ∷ "6" ∷ "7" ∷ "8" ∷ "9" ∷ "A" ∷ "B" ∷ "C" ∷ "D" ∷ "E" ∷ "F"
    ∷ []

digit : List Char → ℕ → Char
digit table n = get_or table n "0"

unfoldable pub hex_encode : List ℕ → String
unfolding digit
hex_encode [] = ""
hex_encode (b ∷ bs) =
    String.◌∷◌ (digit lower_digits (b / 16 % 16))
      (String.◌∷◌ (digit lower_digits (b % 16)) (hex_encode bs))

percent : ℕ → String
unfolding digit
percent b = String.◌∷◌ "%" (
    String.◌∷◌ (digit upper_digits (b / 16 % 16))
      (String.◌∷◌ (digit upper_digits (b % 16)) String.[]))

percent_all : List ℕ → String
percent_all [] = ""
percent_all (b ∷ bs) = percent b ++ percent_all bs

utf8 : ℕ → List ℕ
utf8 r =
    if ltb r 0x80
    then r ∷ []
    else if ltb r 0x800
    then (0xc0 + r / 64) ∷ (0x80 + r % 64) ∷ []
    else if ltb r 0x10000
    then (0xe0 + r / 4096) ∷ (0x80 + r / 64 % 64) ∷ (0x80 + r % 64) ∷ []
    else (0xf0 + r / 262144) ∷ (0x80 + r / 4096 % 64) ∷ (0x80 + r / 64 % 64) ∷ (0x80 + r % 64) ∷ []

-- Characters that no form of escaping changes.
abbrev is_unreserved : ℕ → Bool
is_unreserved r =
    (leb b'a' r && leb r b'z')
    || (leb b'A' r && leb r b'Z')
    || (leb b'0' r && leb r b'9')
    || r == b'-'
    || r == b'_'
    || r == b'.'
    || r == b'~'

abbrev is_path_char : ℕ → Bool
is_path_char r =
    is_unreserved r || r == b'$' || r == b'&' || r == b'+' || r == b':' || r == b'=' || r == b'@'

unfoldable pub path_escape : String → String
unfolding percent percent_all utf8
path_escape String.[] = ""
path_escape (String.◌∷◌ c s) =
    (if is_path_char (code c) then String.◌∷◌ c String.[] else percent_all (utf8 (code c)))
    ++ path_escape s

unfoldable pub query_escape : String → String
unfolding percent percent_all utf8
query_escape String.[] = ""
query_escape (String.◌∷◌ c s) =
    (if is_unreserved (code c)
      then String.◌∷◌ c String.[]
      else if code c == b' '
      then "+"
      else percent_all (utf8 (code c)))
    ++ query_escape s

escape_test : path_escape "a/b é?" ≡ "a%2Fb%20%C3%A9%3F"
unfolding path_escape
escape_test = refl

query_test : query_escape "a b@" ≡ "a+b%40"
unfolding query_escape
query_test = refl

hex_test : hex_encode (0xa0 ∷ 15 ∷ []) ≡ "a00f"
unfolding hex_encode
hex_test = refl
