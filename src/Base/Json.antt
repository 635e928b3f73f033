-- ===== src/Base/Json.antt =====
-- JSON: the values that `JSON.parse` gives, and the text that `JSON.stringify` writes. A number that
-- is not a natural number (negative, fractional) is an `other`, known by the text it prints as.
use Prim.Native.Nat.{ℕ, zero, suc, ◌/◌, ◌%◌}
use Prim.Native.Char.{Char, code}
use Prim.Native.String
use Prim.Native.String.{String}
use mathlib.Core.Path.{◌≡◌, refl, ◌∙◌}
use mathlib.Core.Bool.{Bool, true, false}
use mathlib.Core.Option.{Option, none, some}
use mathlib.Core.List.{List, [], ◌∷◌}
use text.Mathlib.Text.{◌==◌}
use nexus_cloud.Base.Tests.{if◌then◌else◌, eqb, ltb, or_maybe, template}

mutual
  pub data Value : Type 0 where
    null : Value
    flag : Bool → Value
    num : ℕ → Value
    str other : String → Value
    obj : Fields → Value
    arr : Items → Value

  pub data Fields : Type 0 where
    no_fields : Fields
    with_field : Fields → String → Value → Fields

  pub data Items : Type 0 where
    no_items : Items
    item : Value → Items → Items

unfoldable pub listed : Items → List Value
listed no_items = []
listed (item v vs) = v ∷ listed vs

unfoldable pub items_of : List Value → Items
items_of [] = no_items
items_of (v ∷ vs) = item v (items_of vs)

unfoldable pub fields_of : List (String × Value) → Fields
fields_of [] = no_fields
fields_of ((k, v) ∷ fs) = with_field (fields_of fs) k v

-- The last of the fields of that name, as `JSON.parse` keeps it.
unfoldable pub field_in : String → Fields → Option Value
field_in k no_fields = none
field_in k (with_field fs j v) = or_maybe (field_in k fs) (if j == k then some v else none)

-- `value[k]` of an object; undefined for any other value
unfoldable pub get_field : String → Value → Option Value
unfolding field_in
get_field k (obj fs) = field_in k fs
get_field k v = none

pub listed-items_of : (vs : List Value) → listed (items_of vs) ≡ vs
unfolding listed items_of
listed-items_of [] = refl
listed-items_of (v ∷ vs) = rw (listed-items_of vs)

-- An object literal some of whose fields may be undefined, which `JSON.stringify` leaves out.
unfoldable pub given_fields : List (String × Option Value) → Fields
given_fields [] = no_fields
given_fields ((k, none) ∷ fs) = given_fields fs
given_fields ((k, some v) ∷ fs) = with_field (given_fields fs) k v

abbrev pub given : List (String × Option Value) → String → Option Value
given [] k = none
given ((j, v) ∷ fs) k = let rest = given fs k in if j == k then or_maybe rest v else rest

or_maybe-if :
    (b : Bool) (w v : Option Value)
    → or_maybe w (if b then v else none) ≡ (if b then or_maybe w v else w)
or_maybe-if true w v = refl
or_maybe-if false none v = refl
or_maybe-if false (some x) v = refl

or_maybe-none : (b : Bool) (w : Option Value) → w ≡ (if b then or_maybe w none else w)
or_maybe-none true none = refl
or_maybe-none true (some v) = refl
or_maybe-none false w = refl

-- A field of the object that is read back.
pub field_in-given_fields :
    (fs : List (String × Option Value)) (k : String) → field_in k (given_fields fs) ≡ given fs k
unfolding field_in given_fields
field_in-given_fields [] k = refl
field_in-given_fields ((j, none) ∷ fs) k =
    field_in-given_fields fs k ∙ or_maybe-none (j == k) (given fs k)
field_in-given_fields ((j, some v) ∷ fs) k =
    rw (field_in-given_fields fs k) (or_maybe-if (j == k) (given fs k) (some v))

-- The character of a code below 128.
unfoldable pub nth_char : String → ℕ → String
nth_char String.[] n = ""
nth_char (String.◌∷◌ c s) zero = String.◌∷◌ c ""
nth_char (String.◌∷◌ c s) (suc n) = nth_char s n

-- A number in decimal: a digit for each unit of fuel that is needed, of which `n` has enough.
unfoldable pub decimal_digits : ℕ → ℕ → String → String
unfolding nth_char
decimal_digits zero n out = out
decimal_digits (suc f) n out =
    let grown = String.◌++◌ (nth_char "0123456789" (n % 10)) out in
    elim (ltb n 10) [ true ↦ grown | false ↦ decimal_digits f (n / 10) grown ]

unfoldable pub decimal : ℕ → String
unfolding decimal_digits
decimal n = decimal_digits (suc n) n ""

unfoldable pub escaped_char : Char → String
unfolding nth_char
escaped_char c =
    let n = code c in
    if eqb n 34
    then "\\\""
    else if eqb n 92
    then "\\\\"
    else if eqb n 8
    then "\\b"
    else if eqb n 9
    then "\\t"
    else if eqb n 10
    then "\\n"
    else if eqb n 12
    then "\\f"
    else if eqb n 13
    then "\\r"
    else if ltb n 32
    then template
        ("\\u00" ∷ nth_char "0123456789abcdef" (n / 16) ∷ nth_char "0123456789abcdef" (n % 16) ∷ [])
    else String.◌∷◌ c ""

unfoldable pub escaped : String → String
unfolding escaped_char
escaped String.[] = ""
escaped (String.◌∷◌ c s) = String.◌++◌ (escaped_char c) (escaped s)

unfoldable pub quoted : String → String
unfolding escaped
quoted s = template ("\"" ∷ escaped s ∷ "\"" ∷ [])

-- `JSON.stringify(value)`
unfoldable mutual
  unfolding quoted decimal

  pub stringify : Value → String
  stringify null = "null"
  stringify (flag true) = "true"
  stringify (flag false) = "false"
  stringify (num n) = decimal n
  stringify (other s) = s
  stringify (str s) = quoted s
  stringify (arr vs) = template ("[" ∷ stringify_items vs ∷ "]" ∷ [])
  stringify (obj fs) = template ("{" ∷ stringify_fields fs ∷ "}" ∷ [])

  pub stringify_items : Items → String
  stringify_items no_items = ""
  stringify_items (item v no_items) = stringify v
  stringify_items (item v (item w vs)) =
      template (stringify v ∷ "," ∷ stringify_items (item w vs) ∷ [])

  pub stringify_fields : Fields → String
  stringify_fields no_fields = ""
  stringify_fields (with_field no_fields k v) = template (quoted k ∷ ":" ∷ stringify v ∷ [])
  stringify_fields (with_field (with_field fs j w) k v) =
      template (quoted k ∷ ":" ∷ stringify v ∷ "," ∷ stringify_fields (with_field fs j w) ∷ [])

stringify_example :
    stringify
      (obj (fields_of (("a", arr (items_of (num 120 ∷ null ∷ []))) ∷ ("b", str "x\"y") ∷ [])))
    ≡ "{\"a\":[120,null],\"b\":\"x\\\"y\"}"
unfolding stringify fields_of items_of
stringify_example = refl
