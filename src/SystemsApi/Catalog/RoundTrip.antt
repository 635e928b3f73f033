-- ===== src/SystemsApi/Catalog/RoundTrip.antt =====
-- What the validators of the catalog accept they accept again, unchanged, as the JSON value that it
-- is stored as.
use nexus_cloud.Base.{
  Bool-cases, any, trim, trim-trim, ℕ, String, ◌≡◌, refl, inl, inr, Bool, true, false, not, ◌&&◌,
  ◌||◌, Option, none, some, List, [], ◌∷◌, map, arith, ◌==◌,
}
use nexus_cloud.Base.Json.{Value, arr, num, str, null, listed, listed-items_of}
use nexus_cloud.SystemsApi.Catalog.{
  Words, Shelf, CatalogProposal, shelf_word, shelf_words, audience_words, maturity_words,
  visibility_words, surface_words, release_words,
}
use nexus_cloud.SystemsApi.Catalog.Validation.{
  ◌>>=◌, demand, each, no_repeats, is_record, member, is_one_of, is_nil, distinct_words,
  controlled_array, as_text, distinct_texts, string_array, as_timestamp, as_version, as_name,
  without_shelf, validate_catalog_proposal, word_values, text_values, proposal_value,
}

pub some-inj : {A : Type 0} {a b : A} → some a ≡ some b → a ≡ b
some-inj h = ground arith

-- Inversion of a step of a validator.
pub bind-eq-some :
    {A B : Type 0} (m : Option A) (f : A → Option B) {b : B}
    → (m >>= f) ≡ some b
    → (a : A) × (m ≡ some a) × (f a ≡ some b)
bind-eq-some none f h = cc
bind-eq-some (some a) f h = (a, refl, h)

-- The same, for what follows from the parts.
pub with_bind :
    {A B C : Type 0} (m : Option A) (f : A → Option B) {b : B}
    → (m >>= f) ≡ some b
    → ((a : A) → m ≡ some a → f a ≡ some b → C)
    → C
with_bind none f h use_parts = cc
with_bind (some a) f h use_parts = use_parts a refl h

module _ {A : Type 0} ⦃w : Words A⦄ where
  pub is_one_of-word : (a : A) → is_one_of (str (w.word a)) ≡ some a
  unfolding is_one_of
  is_one_of-word a = w.found a

  each-words : (xs : List A) → each is_one_of (map (λ a. str (w.word a)) xs) ≡ some xs
  each-words [] = refl
  each-words (x ∷ xs) = rw (is_one_of-word x, each-words xs)

  distinct_words_checked :
      (xs ys : List A) → distinct_words xs ≡ some ys → (xs ≡ ys) × (distinct_words ys ≡ some ys)
  distinct_words_checked xs ys h = elim (Bool-cases (no_repeats (map w.word xs))) [
    | inl e ↦
        let kept : some xs ≡ some ys = rw e at h in
        let same : xs ≡ ys = ground arith in let still = rw same at e in (same, rw still)
    | inr e ↦ let bad : none ≡ some ys = rw e at h in cc
  ]

-- As many elements come out as go in.
each-is_nil :
    {A : Type 0} (f : Value → Option A) (g : A → Value) (vs : List Value) (ys : List A)
    → each f vs ≡ some ys
    → is_nil (map g ys) ≡ is_nil vs
each-is_nil f g [] ys h = let same : [] ≡ ys = ground arith in rw (← same)
each-is_nil f g (v ∷ vs) ys h =
    let (y, _, k) = bind-eq-some (f v) _ h in
    let (rest, _, l) = bind-eq-some (each f vs) _ k in
    let same : y ∷ rest ≡ ys = ground arith in rw (← same)

module _ {A : Type 0} ⦃w : Words A⦄ where
  -- What an accepted array holds is accepted as an array.
  pub controlled_array_again :
      (n : Bool) (v : Value) (xs : List A)
      → controlled_array n v ≡ some xs
      → controlled_array n (word_values xs) ≡ some xs
  unfolding controlled_array
  controlled_array_again n (arr vs) xs h = elim (Bool-cases (n && is_nil (listed vs))) [
    | inl e ↦ let bad : none ≡ some xs = rw e at h in cc
    | inr e ↦
        let (ys, found, distinct) = bind-eq-some (each is_one_of (listed vs)) _ (rw e at h) in
        let (same, again) = distinct_words_checked ys xs distinct in
        let size = each-is_nil is_one_of (λ a. str (w.word a)) (listed vs) xs (rw same at found) in
        rw listed-items_of (rw (size, e) (rw (each-words xs) again))
  ]
  controlled_array_again n null xs h = cc
  controlled_array_again n _ xs h = cc

each-texts : (ss : List String) → each as_text (map str ss) ≡ some ss
each-texts [] = refl
each-texts (s ∷ ss) = rw (each-texts ss)

map-trim-trim : (ss : List String) → map trim (map trim ss) ≡ map trim ss
map-trim-trim [] = refl
map-trim-trim (s ∷ ss) = rw (trim-trim s, map-trim-trim ss)

distinct_texts_checked :
    (xs ys : List String) → distinct_texts xs ≡ some ys → (xs ≡ ys) × (distinct_texts ys ≡ some ys)
distinct_texts_checked xs ys h =
    elim (Bool-cases (any (λ item. item == "") xs || not (no_repeats xs))) [
      | inl e ↦ let bad : none ≡ some ys = rw e at h in cc
      | inr e ↦
          let kept : some xs ≡ some ys = rw e at h in
          let same : xs ≡ ys = ground arith in let still = rw same at e in (same, rw still)
    ]

pub string_array_again :
    (v : Value) (ss : List String)
    → string_array v ≡ some ss
    → string_array (text_values ss) ≡ some ss
unfolding string_array
string_array_again (arr vs) ss h =
    let (texts, found, distinct) = bind-eq-some (each as_text (listed vs)) _ h in
    let (same, again) = distinct_texts_checked (map trim texts) ss distinct in
    let twice : map trim ss ≡ ss = rw (← same) (map-trim-trim texts) in
    rw listed-items_of (rw (each-texts ss) (rw twice again))
string_array_again null ss h = cc
string_array_again _ ss h = cc

pub as_timestamp_again :
    (v : Value) (s : String) → as_timestamp v ≡ some s → as_timestamp (str s) ≡ some s
as_timestamp_again (str t) s h = ground arith
as_timestamp_again null s h = cc
as_timestamp_again _ s h = cc

pub as_version_again : (v : Value) (n : ℕ) → as_version v ≡ some n → as_version (num n) ≡ some n
as_version_again (num m) n h = ground arith
as_version_again null n h = cc
as_version_again _ n h = cc

pub as_name_again : (v : Value) (s : String) → as_name v ≡ some s → as_name (str s) ≡ some s
as_name_again (str t) s h = ground arith
as_name_again null s h = cc
as_name_again _ s h = cc

pub without_shelf_again :
    (primary : Shelf) (xs ys : List Shelf)
    → without_shelf primary xs ≡ some ys
    → (xs ≡ ys) × (without_shelf primary ys ≡ some ys)
without_shelf_again primary xs ys h =
    elim (Bool-cases (any (λ s. shelf_word s == shelf_word primary) xs)) [
      | inl e ↦ let bad : none ≡ some ys = rw e at h in cc
      | inr e ↦
          let kept : some xs ≡ some ys = rw e at h in
          let same : xs ≡ ys = ground arith in let still = rw same at e in (same, rw still)
    ]

-- A proposal that the validator accepts is accepted again, unchanged, as the JSON value that it is
-- stored as: its words are in the lists, no text is blank, untrimmed or repeated, its instant exists
-- and its version is a positive safe integer.
pub validate_catalog_proposal_again :
    (v : Value) (p : CatalogProposal)
    → validate_catalog_proposal v ≡ some p
    → validate_catalog_proposal (proposal_value p) ≡ some p
unfolding validate_catalog_proposal
validate_catalog_proposal_again v p h = with_bind (demand (is_record v)) _ h λ _ _ h1.
    with_bind (controlled_array true (member "suggestedShelves" v)) _ h1 λ shelves e1 h2.
      with_bind (controlled_array false (member "suggestedAudiences" v)) _ h2 λ audiences e2 h3.
        with_bind (string_array (member "capabilities" v)) _ h3 λ capabilities e3 h4.
          with_bind (string_array (member "keywords" v)) _ h4 λ keywords e4 h5.
            with_bind (as_timestamp (member "submittedAt" v)) _ h5 λ submitted e5 h6.
              with_bind (as_version (member "version" v)) _ h6 λ version e6 same.
                let r1 = controlled_array_again true _ shelves e1 in
                let r2 = controlled_array_again false _ audiences e2 in
                let r3 = string_array_again _ capabilities e3 in
                let r4 = string_array_again _ keywords e4 in
                let r5 = as_timestamp_again _ submitted e5 in
                let r6 = as_version_again (member "version" v) version e6 in
                rw (← some-inj same) (rw (r1, r2, r3, r4, r5, r6))
