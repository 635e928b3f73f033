-- ===== src/SystemsApi/Catalog/Approved.antt =====
-- What an approval is that the validator accepts: `validateApprovedCatalog` of
-- src/systems-api/catalog.ts.
use nexus_cloud.Base.{
  Bool-cases, any, All, Distinct, trim, trim-trim, ℕ, ◌≤◌, ◌<◌, String, ◌≡◌, refl, sym, ◌∙◌, ◌≢◌,
  inl, inr, Bool, true, false, ◌&&◌, none, some, List, [], ◌∷◌, map, arith, ◌==◌, eq_iff,
}
use nexus_cloud.Base.Json.{Value, arr, num, str, null, listed}
use nexus_cloud.SystemsApi.Catalog.{
  Words, Shelf, ApprovedCatalog, shelf_word, audience_word, shelf_words, audience_words,
  maturity_words, visibility_words, surface_words, release_words,
}
use nexus_cloud.SystemsApi.Catalog.Validation.{
  demand, each, no_repeats, is_record, member, is_one_of, is_nil, distinct_words, controlled_array,
  as_text, string_array, is_timestamp, as_timestamp, as_version, as_name, without_shelf,
  validate_approved_catalog, approved_value,
}
use nexus_cloud.SystemsApi.Catalog.RoundTrip.{
  some-inj, bind-eq-some, with_bind, is_one_of-word, controlled_array_again, string_array_again,
  as_timestamp_again, as_version_again, as_name_again, without_shelf_again,
}

-- The steps of the validator, as they were passed for an approval.
record Parts (v : Value) (a : ApprovedCatalog) : Type 0 where
  primary_accepted : is_one_of (member "primaryShelf" v) ≡ some a.primary_shelf
  maturity_accepted : is_one_of (member "maturity" v) ≡ some a.maturity
  visibility_accepted : is_one_of (member "visibility" v) ≡ some a.visibility
  surface_accepted : is_one_of (member "surface" v) ≡ some a.surface
  release_accepted : is_one_of (member "releaseState" v) ≡ some a.release_state
  approved_at_accepted : as_timestamp (member "approvedAt" v) ≡ some a.approved_at
  approved_by_accepted : as_name (member "approvedBy" v) ≡ some a.approved_by
  version_accepted : as_version (member "version" v) ≡ some a.version
  shelves_accepted : controlled_array false (member "secondaryShelves" v) ≡ some a.secondary_shelves
  primary_left_out : without_shelf a.primary_shelf a.secondary_shelves ≡ some a.secondary_shelves
  audiences_accepted : controlled_array false (member "audiences" v) ≡ some a.audiences
  capabilities_accepted : string_array (member "capabilities" v) ≡ some a.capabilities

approved-Parts :
    (v : Value) (a : ApprovedCatalog) → validate_approved_catalog v ≡ some a → Parts v a
unfolding validate_approved_catalog
approved-Parts v a h = with_bind (demand (is_record v)) _ h λ _ _ h1.
    with_bind (is_one_of (member "primaryShelf" v)) _ h1 λ primary e1 h2.
      with_bind (is_one_of (member "maturity" v)) _ h2 λ maturity e2 h3.
        with_bind (is_one_of (member "visibility" v)) _ h3 λ visibility e3 h4.
          with_bind (is_one_of (member "surface" v)) _ h4 λ surface e4 h5.
            with_bind (is_one_of (member "releaseState" v)) _ h5 λ release e5 h6.
              with_bind (as_timestamp (member "approvedAt" v)) _ h6 λ approved_at e6 h7.
                with_bind (as_name (member "approvedBy" v)) _ h7 λ approved_by e7 h8.
                  with_bind (as_version (member "version" v)) _ h8 λ version e8 h9.
                    with_bind (controlled_array false (member "secondaryShelves" v)) _ h9
                      λ shelves e9 h10.
                        with_bind (without_shelf primary shelves) _ h10 λ secondary e10 h11.
                          with_bind (controlled_array false (member "audiences" v)) _ h11
                            λ audiences e11 h12.
                              with_bind (string_array (member "capabilities" v)) _ h12
                                λ capabilities e12 same.
                                  let (kept, alone) =
                                    without_shelf_again primary shelves secondary e10 in
                                  rw (← some-inj same) (record {
                                    primary_accepted = e1;
                                    maturity_accepted = e2;
                                    visibility_accepted = e3;
                                    surface_accepted = e4;
                                    release_accepted = e5;
                                    approved_at_accepted = e6;
                                    approved_by_accepted = e7;
                                    version_accepted = e8;
                                    shelves_accepted = rw kept at e9;
                                    primary_left_out = alone;
                                    audiences_accepted = e11;
                                    capabilities_accepted = e12;
                                  })

approved_again :
    (v : Value) (a : ApprovedCatalog)
    → Parts v a
    → validate_approved_catalog (approved_value a) ≡ some a
unfolding validate_approved_catalog
approved_again v a p =
    let r1 = is_one_of-word a.primary_shelf in
    let r2 = is_one_of-word a.maturity in
    let r3 = is_one_of-word a.visibility in
    let r4 = is_one_of-word a.surface in
    let r5 = is_one_of-word a.release_state in
    let r6 = as_timestamp_again _ a.approved_at p.approved_at_accepted in
    let r7 = as_name_again _ a.approved_by p.approved_by_accepted in
    let r8 = as_version_again (member "version" v) a.version p.version_accepted in
    let r9 = controlled_array_again false _ a.secondary_shelves p.shelves_accepted in
    let r10 = p.primary_left_out in
    let r11 = controlled_array_again false _ a.audiences p.audiences_accepted in
    let r12 = string_array_again _ a.capabilities p.capabilities_accepted in
    rw (r1, r2, r3, r4, r5, r6, r7, r8, r9, r10, r11, r12)

-- No space around a text, and the text is not empty.
abbrev pub IsTrimmed : String → Type 0
IsTrimmed s = (trim s ≡ s) × (s ≢ "")

-- An approval as the validator leaves it.
pub record IsWellFormed (a : ApprovedCatalog) : Type 0 where
  pub shelves_distinct : Distinct shelf_word a.secondary_shelves
  pub primary_apart : All (λ s. shelf_word s ≢ shelf_word a.primary_shelf) a.secondary_shelves
  pub audiences_distinct : Distinct audience_word a.audiences
  pub capabilities_distinct : Distinct (λ s. s) a.capabilities
  pub capabilities_trimmed : All IsTrimmed a.capabilities
  pub approver_trimmed : IsTrimmed a.approved_by
  pub instant_exists : is_timestamp a.approved_at ≡ true
  pub version_positive : 0 < a.version
  pub version_safe : a.version ≤ 9007199254740991

none_match :
    {A : Type 0} (key : A → String) (s : String) (xs : List A)
    → any (λ t. t == s) (map key xs) ≡ false
    → All (λ x. key x ≢ s) xs
none_match key s [] h = tt
none_match key s (x ∷ xs) h = elim (Bool-cases (key x == s)) [
  | inl e ↦ let bad = rw e at h in cc
  | inr e ↦ ((λ same. let equal = (eq_iff (key x) s).1 same in cc), none_match key s xs (rw e at h))
]

no_repeats-Distinct :
    {A : Type 0} (key : A → String) (xs : List A) → no_repeats (map key xs) ≡ true → Distinct key xs
no_repeats-Distinct key [] h = tt
no_repeats-Distinct key (x ∷ xs) h = elim (Bool-cases (any (λ t. t == key x) (map key xs))) [
  | inl e ↦ let bad = rw e at h in cc
  | inr e ↦ (none_match key (key x) xs e, no_repeats-Distinct key xs (rw e at h))
]

map_id : (ss : List String) → map (λ s. s) ss ≡ ss
map_id [] = refl
map_id (s ∷ ss) = rw (map_id ss)

module _ {A : Type 0} ⦃w : Words A⦄ where
  controlled_array-Distinct :
      (n : Bool) (v : Value) (xs : List A) → controlled_array n v ≡ some xs → Distinct w.word xs
  unfolding controlled_array
  controlled_array-Distinct n (arr vs) xs h = elim (Bool-cases (n && is_nil (listed vs))) [
    | inl e ↦ let bad : none ≡ some xs = rw e at h in cc
    | inr e ↦
        let (ys, _, k) = bind-eq-some (each is_one_of (listed vs)) distinct_words (rw e at h) in
        elim (Bool-cases (no_repeats (map w.word ys))) [
          | inl q ↦
              let same : ys ≡ xs = some-inj (rw q at k) in
              rw (← same) (no_repeats-Distinct w.word ys q)
          | inr q ↦ let bad : none ≡ some xs = rw q at k in cc
        ]
  ]
  controlled_array-Distinct n null xs h = cc
  controlled_array-Distinct n _ xs h = cc

trim-IsTrimmed :
    (ss : List String)
    → any (λ item. item == "") (map trim ss) ≡ false
    → All IsTrimmed (map trim ss)
trim-IsTrimmed [] h = tt
trim-IsTrimmed (s ∷ ss) h = elim (Bool-cases (trim s == "")) [
  | inl e ↦ let bad = rw e at h in cc
  | inr e ↦ (
    (trim-trim s, λ same. let equal = (eq_iff (trim s) "").1 same in cc),
    trim-IsTrimmed ss (rw e at h),
  )
]

string_array-IsTrimmed :
    (v : Value) (ss : List String)
    → string_array v ≡ some ss
    → Distinct (λ s. s) ss × All IsTrimmed ss
unfolding string_array
string_array-IsTrimmed (arr vs) ss h =
    let (texts, _, k) = bind-eq-some (each as_text (listed vs)) _ h in
    let trimmed = map trim texts in
    elim (Bool-cases (any (λ item. item == "") trimmed)) [
      | inl e ↦ let bad : none ≡ some ss = rw e at k in cc
      | inr e ↦ elim (Bool-cases (no_repeats trimmed)) [
        | inl q ↦
            let same : trimmed ≡ ss = some-inj (rw q at (rw e at k)) in
            rw (← same)
              (no_repeats-Distinct (λ s. s) trimmed (rw (map_id trimmed) q), trim-IsTrimmed texts e)
        | inr q ↦ let bad : none ≡ some ss = rw q at (rw e at k) in cc
      ]
    ]
string_array-IsTrimmed null ss h = cc
string_array-IsTrimmed _ ss h = cc

as_name-IsTrimmed : (v : Value) (s : String) → as_name v ≡ some s → IsTrimmed s
as_name-IsTrimmed (str t) s h = elim (Bool-cases (trim t == "")) [
  | inl e ↦ let bad : none ≡ some s = rw e at h in cc
  | inr e ↦ elim (Bool-cases (t == trim t)) [
    | inl q ↦
        let same : t ≡ s = some-inj (rw q at (rw e at h)) in
        let tight : trim t ≡ t = sym ((eq_iff t (trim t)).0 q) in
        rw (← same) (tight, λ empty. let equal = (eq_iff (trim t) "").1 (tight ∙ empty) in cc)
    | inr q ↦ let bad : none ≡ some s = rw q at (rw e at h) in cc
  ]
]
as_name-IsTrimmed null s h = cc
as_name-IsTrimmed _ s h = cc

as_timestamp-exists : (v : Value) (s : String) → as_timestamp v ≡ some s → is_timestamp s ≡ true
as_timestamp-exists (str t) s h = ground arith
as_timestamp-exists null s h = cc
as_timestamp-exists _ s h = cc

as_version-bounds : (v : Value) (n : ℕ) → as_version v ≡ some n → (0 < n) × (n ≤ 9007199254740991)
as_version-bounds (num m) n h = ground arith
as_version-bounds null n h = cc
as_version-bounds _ n h = cc

without_shelf-apart :
    (primary : Shelf) (xs : List Shelf)
    → without_shelf primary xs ≡ some xs
    → All (λ s. shelf_word s ≢ shelf_word primary) xs
without_shelf-apart primary xs h =
    elim (Bool-cases (any (λ s. shelf_word s == shelf_word primary) xs)) [
      | inl e ↦ let bad : none ≡ some xs = rw e at h in cc
      | inr e ↦ apart xs e
    ]
  where
    apart :
        (ys : List Shelf)
        → any (λ s. shelf_word s == shelf_word primary) ys ≡ false
        → All (λ s. shelf_word s ≢ shelf_word primary) ys
    apart [] k = tt
    apart (y ∷ ys) k = elim (Bool-cases (shelf_word y == shelf_word primary)) [
      | inl e ↦ let bad = rw e at k in cc
      | inr e ↦ (
        (λ same. let equal = (eq_iff (shelf_word y) (shelf_word primary)).1 same in cc),
        apart ys (rw e at k),
      )
    ]

-- An approval that the validator accepts repeats no secondary shelf, no audience and no capability, its
-- secondary shelves leave out the primary one, its capabilities and its approver's name are not empty
-- and have no space around them, its instant exists, and its version is a positive safe integer. As
-- the JSON value that it is stored as, it is accepted again, unchanged.
pub validate_approved_catalog_again :
    (v : Value) (a : ApprovedCatalog)
    → validate_approved_catalog v ≡ some a
    → IsWellFormed a × (validate_approved_catalog (approved_value a) ≡ some a)
validate_approved_catalog_again v a h =
    let p = approved-Parts v a h in
    let texts = string_array-IsTrimmed _ a.capabilities p.capabilities_accepted in
    let version = as_version-bounds (member "version" v) a.version p.version_accepted in
    (
      record {
        shelves_distinct = controlled_array-Distinct false _ a.secondary_shelves p.shelves_accepted;
        primary_apart = without_shelf-apart a.primary_shelf a.secondary_shelves p.primary_left_out;
        audiences_distinct = controlled_array-Distinct false _ a.audiences p.audiences_accepted;
        capabilities_distinct = texts.0;
        capabilities_trimmed = texts.1;
        approver_trimmed = as_name-IsTrimmed _ a.approved_by p.approved_by_accepted;
        instant_exists = as_timestamp-exists _ a.approved_at p.approved_at_accepted;
        version_positive = version.0;
        version_safe = version.1;
      },
      approved_again v a p,
    )
