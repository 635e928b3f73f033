-- ===== src/SystemsApi/Catalog/Validation.antt =====
-- The validators of src/systems-api/catalog.ts, over the JSON values that they are given, and the
-- JSON value of what they accept.
use Prim.Native.Char.{code}
use nexus_cloud.Base.{
  ltb, leb, eqb, if◌then◌else◌, or_else, any, find, trim, drop_chars, take_chars, ℕ, ◌+◌, ◌-◌, ◌*◌,
  ◌%◌, String, Bool, true, false, not, ◌&&◌, ◌||◌, Option, none, some, List, [], ◌∷◌, map, ◌==◌,
}
use nexus_cloud.Base.Json.{Value, arr, obj, num, str, null, listed, items_of, fields_of, get_field}
use nexus_cloud.SystemsApi.Catalog.{
  shelf_words, audience_words, maturity_words, visibility_words, surface_words, release_words,
  release_word, surface_word, visibility_word, maturity_word, shelf_word, Words, Shelf,
  CatalogProposal, ApprovedCatalog,
}

infixl 5 ◌>>=◌ ◌>>◌
abbrev pub ◌>>=◌ : {A B : Type 0} → Option A → (A → Option B) → Option B
none >>= f = none
some a >>= f = f a

abbrev pub ◌>>◌ : {B : Type 0} → Option (Unit {0}) → Option B → Option B
m >> k = m >>= λ _. k

abbrev pub demand : Bool → Option (Unit {0})
demand true = some tt
demand false = none

abbrev pub each : {A B : Type 0} → (A → Option B) → List A → Option (List B)
each f [] = some []
each f (x ∷ xs) = f x >>= λ y. each f xs >>= λ ys. some (y ∷ ys)

-- `new Set(texts).size === texts.length`
abbrev pub no_repeats : List String → Bool
no_repeats [] = true
no_repeats (s ∷ rest) = not (any (λ t. t == s) rest) && no_repeats rest

-- `isRecord`
abbrev pub is_record : Value → Bool
is_record (obj fs) = true
is_record v = false

-- `value.name`; the validators take undefined as they take null.
unfoldable pub member : String → Value → Value
unfolding get_field fields_of
member name v = or_else (get_field name v) null

abbrev pub is_nil : List Value → Bool
is_nil [] = true
is_nil (v ∷ vs) = false

module _ {A : Type 0} ⦃w : Words A⦄ where
  -- `isOneOf`
  unfoldable pub is_one_of : Value → Option A
  is_one_of (str s) = find (λ a. w.word a == s) w.words
  is_one_of v = none

  abbrev pub distinct_words : List A → Option (List A)
  distinct_words xs = if no_repeats (map w.word xs) then some xs else none

  unfoldable pub controlled_array : Bool → Value → Option (List A)
  unfolding is_one_of
  controlled_array require_non_empty (arr vs) =
      if require_non_empty && is_nil (listed vs)
      then none
      else each is_one_of (listed vs) >>= distinct_words
  controlled_array require_non_empty v = none

abbrev pub as_text : Value → Option String
as_text (str s) = some s
as_text v = none

abbrev pub distinct_texts : List String → Option (List String)
distinct_texts trimmed =
    if any (λ item. item == "") trimmed || not (no_repeats trimmed) then none else some trimmed

unfoldable pub string_array : Value → Option (List String)
unfolding trim
string_array (arr vs) = each as_text (listed vs) >>= λ texts. distinct_texts (map trim texts)
string_array v = none

-- Whether a text has a shape, in which `#` stands for a digit.
unfoldable pub has_shape : String → String → Bool
has_shape String.[] String.[] = true
has_shape (String.◌∷◌ p ps) (String.◌∷◌ c s) =
    (if eqb (code p) b'#' then leb b'0' (code c) && leb (code c) b'9' else eqb (code p) (code c))
    && has_shape ps s
has_shape ps s = false

unfoldable pub digits_value : ℕ → String → ℕ
digits_value n String.[] = n
digits_value n (String.◌∷◌ c s) = digits_value (n * 10 + (code c - b'0')) s

-- The number that the digits from a position stand for.
unfoldable pub number_at : ℕ → ℕ → String → ℕ
unfolding digits_value take_chars drop_chars
number_at start width s = digits_value 0 (take_chars width (drop_chars start s))

abbrev pub is_leap : ℕ → Bool
is_leap y = eqb (y % 4) 0 && (not (eqb (y % 100) 0) || eqb (y % 400) 0)

abbrev pub days_in_month : ℕ → ℕ → ℕ
days_in_month y m =
    if eqb m 2
    then (if is_leap y then 29 else 28)
    else if eqb m 4 || eqb m 6 || eqb m 9 || eqb m 11
    then 30
    else 31

-- `isTimestamp`: a text of that form is written back by `toISOString` exactly if its month, day and
-- time of day exist.
unfoldable pub is_timestamp : String → Bool
unfolding has_shape number_at
is_timestamp s =
    let month = number_at 5 2 s in
    let day = number_at 8 2 s in
    has_shape "####-##-##T##:##:##.###Z" s
    && (leb 1 month && leb month 12)
    && (leb 1 day && leb day (days_in_month (number_at 0 4 s) month))
    && leb (number_at 11 2 s) 23
    && leb (number_at 14 2 s) 59
    && leb (number_at 17 2 s) 59

abbrev pub as_timestamp : Value → Option String
as_timestamp (str s) = if is_timestamp s then some s else none
as_timestamp v = none

-- `isVersion`: a positive safe integer
abbrev pub as_version : Value → Option ℕ
as_version (num n) = if ltb 0 n && leb n 9007199254740991 then some n else none
as_version v = none

unfoldable pub validate_catalog_proposal : Value → Option CatalogProposal
unfolding member
validate_catalog_proposal v = do
  demand (is_record v)
  shelves ← controlled_array true (member "suggestedShelves" v)
  audiences ← controlled_array false (member "suggestedAudiences" v)
  capabilities ← string_array (member "capabilities" v)
  keywords ← string_array (member "keywords" v)
  submitted_at ← as_timestamp (member "submittedAt" v)
  version ← as_version (member "version" v)
  some (record {
    suggested_shelves = shelves;
    suggested_audiences = audiences;
    capabilities = capabilities;
    keywords = keywords;
    submitted_at = submitted_at;
    version = version;
  })

-- A name that is not blank and has no space around it.
abbrev pub as_name : Value → Option String
as_name (str s) = if trim s == "" || not (s == trim s) then none else some s
as_name v = none

abbrev pub without_shelf : Shelf → List Shelf → Option (List Shelf)
without_shelf primary shelves =
    if any (λ s. shelf_word s == shelf_word primary) shelves then none else some shelves

unfoldable pub validate_approved_catalog : Value → Option ApprovedCatalog
unfolding member
validate_approved_catalog v = do
  demand (is_record v)
  primary_shelf ← is_one_of (member "primaryShelf" v)
  maturity ← is_one_of (member "maturity" v)
  visibility ← is_one_of (member "visibility" v)
  surface ← is_one_of (member "surface" v)
  release_state ← is_one_of (member "releaseState" v)
  approved_at ← as_timestamp (member "approvedAt" v)
  approved_by ← as_name (member "approvedBy" v)
  version ← as_version (member "version" v)
  shelves ← controlled_array false (member "secondaryShelves" v)
  secondary_shelves ← without_shelf primary_shelf shelves
  audiences ← controlled_array false (member "audiences" v)
  capabilities ← string_array (member "capabilities" v)
  some (record {
    primary_shelf = primary_shelf;
    secondary_shelves = secondary_shelves;
    audiences = audiences;
    capabilities = capabilities;
    maturity = maturity;
    visibility = visibility;
    surface = surface;
    release_state = release_state;
    approved_at = approved_at;
    approved_by = approved_by;
    version = version;
  })

abbrev pub word_values : {A : Type 0} ⦃w : Words A⦄ → List A → Value
word_values ⦃w⦄ xs = arr (items_of (map (λ a. str (w.word a)) xs))

abbrev pub text_values : List String → Value
text_values ss = arr (items_of (map str ss))

-- A proposal and an approval as JSON values, their fields in the order of the validators.
abbrev pub proposal_value : CatalogProposal → Value
proposal_value p = obj (
    fields_of (
      ("suggestedShelves", word_values p.suggested_shelves)
      ∷ ("suggestedAudiences", word_values p.suggested_audiences)
      ∷ ("capabilities", text_values p.capabilities)
      ∷ ("keywords", text_values p.keywords)
      ∷ ("submittedAt", str p.submitted_at)
      ∷ ("version", num p.version)
      ∷ []))

abbrev pub approved_value : ApprovedCatalog → Value
approved_value a = obj (
    fields_of (
      ("primaryShelf", str (shelf_word a.primary_shelf))
      ∷ ("secondaryShelves", word_values a.secondary_shelves)
      ∷ ("audiences", word_values a.audiences)
      ∷ ("capabilities", text_values a.capabilities)
      ∷ ("maturity", str (maturity_word a.maturity))
      ∷ ("visibility", str (visibility_word a.visibility))
      ∷ ("surface", str (surface_word a.surface))
      ∷ ("releaseState", str (release_word a.release_state))
      ∷ ("approvedAt", str a.approved_at)
      ∷ ("approvedBy", str a.approved_by)
      ∷ ("version", num a.version)
      ∷ []))
