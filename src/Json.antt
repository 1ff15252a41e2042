-- ===== src/Json.antt =====
-- JSON documents as `encoding/json` reads them into structs (Go's standard library).
-- A body is the document that it encodes, or `none` where it is no JSON document.
-- A struct field takes each object key that is equal to its name up to ASCII case, in order;
-- null leaves the field as it is, and a value of another type is an error.
use Prim.Native.Char.{code}
use vault_secrets_broker.Prelude.{
  ℕ, ◌+◌, String, ◌≡◌, refl, Bool, true, false, ◌&&◌, Option, none, some, ltb, leb, ◌==◌, nat_eq,
  if◌then◌else◌,
}
use vault_secrets_broker.Prelude.Int.{ℤ, pos}

mutual
  pub data Json : Type 0 where
    null : Json
    bool : Bool → Json
    num : ℤ → Json
    frac : Json
    str : String → Json
    arr : Items → Json
    obj : Fields → Json

  pub data Items : Type 0 where
    nil : Items
    cons : Json → Items → Items

  pub data Fields : Type 0 where
    end : Fields
    field : String → Json → Fields → Fields

abbrev pub Payload : Type 0
Payload = Option Json

abbrev lower : ℕ → ℕ
lower c = if leb b'A' c && leb c b'Z' then c + 32 else c

fold_eq : String → String → Bool
fold_eq String.[] String.[] = true
fold_eq String.[] (String.◌∷◌ d t) = false
fold_eq (String.◌∷◌ c s) String.[] = false
fold_eq (String.◌∷◌ c s) (String.◌∷◌ d t) = lower (code c) == lower (code d) && fold_eq s t

-- The value of a struct field after the object is read; `none` is json.UnmarshalTypeError.
module _ {ℓ} {A : Type ℓ} (read : Json → A → Option A) where
  unfoldable pub read_field : String → Fields → A → Option A
  unfolding fold_eq
  read_field name end cur = some cur
  read_field name (field k v fs) cur = elim (if fold_eq k name then read v cur else some cur) [
    | none ↦ none
    | some next ↦ read_field name fs next
  ]

abbrev pub read_string : Json → String → Option String
read_string null cur = some cur
read_string (str s) cur = some s
read_string _ cur = none

abbrev pub read_bool : Json → Bool → Option Bool
read_bool null cur = some cur
read_bool (bool b) cur = some b
read_bool _ cur = none

-- an `int64` field: a number with a fraction, or out of range, is an error
abbrev in_range : ℤ → Option ℤ
in_range (pos n) = if ltb n 9223372036854775808 then some (pos n) else none
in_range (ℤ.negsuc n) = if ltb n 9223372036854775808 then some (ℤ.negsuc n) else none

abbrev pub read_int : Json → ℤ → Option ℤ
read_int null cur = some cur
read_int (num n) cur = in_range n
read_int _ cur = none

-- json.Unmarshal into a struct: null leaves the zero values, anything but an object is an error.
module _ {ℓ} {A : Type ℓ} where
  abbrev pub unmarshal : A → (Fields → Option A) → Payload → Option A
  unmarshal zero_value read none = none
  unmarshal zero_value read (some (obj fs)) = read fs
  unmarshal zero_value read (some null) = some zero_value
  unmarshal zero_value read (some _) = none

abbrev pub string_field : String → Fields → Option String
string_field name fs = read_field read_string name fs ""

string_field_test : string_field "token" (field "Token" (str "t") (field "x" null end)) ≡ some "t"
unfolding read_field
string_field_test = refl
