-- ===== src/SystemsApi/Store/Settled.antt =====
-- What a load leaves, saved again, loads as it is: src/systems-api/store.ts.
use nexus_cloud.Base.{
  if◌then◌else◌, Bool-cases, Option-cases, or_else, length, filter, All, All-weaken, Stamp, Env,
  now, ℕ, suc, ◌+◌, String, ◌≡◌, refl, ◌∙◌, inl, inr, Bool, true, Option, none, some, List, [], ◌∷◌,
}
use nexus_cloud.Base.Json.{Value}
use nexus_cloud.SystemsApi.Types.{Tool, PhantomMetadata}
use nexus_cloud.SystemsApi.Paths.{is_safe_relative_path}
use nexus_cloud.SystemsApi.Catalog.Validation.{◌>>=◌}
use nexus_cloud.SystemsApi.Store.Objects.{
  word_in, Object, text_in, flag_in, object_in, unless_empty, are_named, has_metadata, metadata_of,
  profile_of, sanitize_relative_path, sanitize_phantom_security_metadata,
  sanitize_phantom_security_profile,
}
use nexus_cloud.SystemsApi.Store.{
  items_in, tool_from, public_url_from, address_from, history_entry_from, exposure_from,
  domain_from, if_named, tool_texts, public_url_texts, address_texts, history_texts, exposure_texts,
  domain_texts, prepend_if, all_sanitized, tool_of, public_url_of, address_of, history_entry_of,
  exposure_of, domain_of, records_of, sanitize_records,
}
use nexus_cloud.SystemsApi.Store.PublishedWords.{kind_words}
use nexus_cloud.SystemsApi.Store.Saving.{records_value}
use nexus_cloud.SystemsApi.Store.Loading.{
  IsStorable, IsSafe, IsFull, HasAlgorithms, HasFullMetadata,
}
use nexus_cloud.SystemsApi.Store.Reloading.{named, sanitize_records-saved}

sanitized_path-IsSafe : (v : Option Value) → IsSafe (sanitize_relative_path v)
unfolding sanitize_relative_path
sanitized_path-IsSafe v = elim (Option-cases (text_in v)) [
  | inl e ↦ rw e tt
  | inr (path, e) ↦ elim (Bool-cases (is_safe_relative_path path)) [
    | inl k ↦ rw e (rw k k)
    | inr k ↦ rw e (rw k tt)
  ]
]

unless_empty-HasAlgorithms : (ss : List String) → HasAlgorithms (unless_empty ss)
unless_empty-HasAlgorithms [] = tt
unless_empty-HasAlgorithms (s ∷ ss) = tt

has_metadata-IsFull :
    (m : PhantomMetadata)
    → HasAlgorithms m.pq_algorithms
    → IsFull (if has_metadata m then some m else none)
has_metadata-IsFull m h = elim (Bool-cases (has_metadata m)) [
  | inl e ↦ rw e (e, h)
  | inr e ↦ rw e tt
]

bound_all :
    {A B : Type 0} (P : Option B → Type 0) (m : Option A) (f : A → Option B)
    → P none
    → ((a : A) → P (f a))
    → P (m >>= f)
bound_all P none f h k = h
bound_all P (some a) f h k = k a

sanitized_metadata-IsFull : (v : Option Value) → IsFull (sanitize_phantom_security_metadata v)
unfolding metadata_of
sanitized_metadata-IsFull v =
    bound_all IsFull (object_in v) metadata_of tt
      (λ value. has_metadata-IsFull _ (unless_empty-HasAlgorithms _))

profile_of-HasFullMetadata :
    (value guarantees : Object) → HasFullMetadata (profile_of value guarantees)
unfolding profile_of
profile_of-HasFullMetadata value guarantees =
    bound_all HasFullMetadata (flag_in (value "claimedSecured")) _ tt λ a.
      bound_all HasFullMetadata (flag_in (guarantees "postQuantum")) _ tt λ b.
        bound_all HasFullMetadata (flag_in (guarantees "fheTransport")) _ tt λ c.
          bound_all HasFullMetadata (flag_in (guarantees "zkProofs")) _ tt
            λ d. sanitized_metadata-IsFull (value "metadata")

sanitized_profile-HasFullMetadata :
    (v : Option Value) → HasFullMetadata (sanitize_phantom_security_profile v)
sanitized_profile-HasFullMetadata v = bound_all HasFullMetadata (object_in v) _ tt λ value.
    bound_all HasFullMetadata (object_in (value "guarantees")) (profile_of value) tt
      (profile_of-HasFullMetadata value)

-- What holds of every record that a sanitizer gives.
abbrev Gives : {A : Type 0} → (A → Type 0) → Option A → Type 0
Gives P none = Unit
Gives P (some a) = P a

if_named-Gives :
    {A : Type 0} (P : A → Type 0) (texts : A → List String) (a : A)
    → (are_named (texts a) ≡ true → P a)
    → Gives P (if_named texts a)
unfolding if_named
if_named-Gives P texts a h = elim (Bool-cases (are_named (texts a))) [
  | inl e ↦ rw e (h e)
  | inr e ↦ rw e tt
]

abbrev Named : {A : Type 0} → (A → List String) → A → Type 0
Named texts a = are_named (texts a) ≡ true

prepend_if-All :
    {A : Type 0} (P : A → Type 0) (a : Option A) (rest : List A)
    → Gives P a
    → All P rest
    → All P (prepend_if a rest)
prepend_if-All P none rest h k = k
prepend_if-All P (some a) rest h k = (h, k)

all_sanitized-All :
    {A : Type 0} (of : Stamp → Object → Option A) (P : A → Type 0)
    → ((clock : Stamp) (value : Object) → Gives P (of clock value))
    → (env : Env) (n : ℕ) (vs : List Value) → All P (all_sanitized of env n vs)
unfolding all_sanitized
all_sanitized-All of P h env n [] = tt
all_sanitized-All of P h env n (v ∷ vs) =
    prepend_if-All P _ _
      (bound_all (Gives P) (object_in (some v)) (of (now env n)) tt (h (now env n)))
      (all_sanitized-All of P h env (suc n) vs)

filter-All : {A : Type 0} (p : A → Bool) (xs : List A) → All (λ x. p x ≡ true) xs → filter p xs ≡ xs
filter-All p [] h = refl
filter-All p (x ∷ xs) h = rw (h.0) (rw (filter-All p xs h.1))

module _ (read_stamp : String → Stamp) where
  abbrev IsKept : Tool → Type 0
  IsKept t = Named tool_texts t × IsStorable t

  tool_of-Gives : (clock : Stamp) (value : Object) → Gives IsKept (tool_of read_stamp clock value)
  unfolding tool_of
  tool_of-Gives clock value =
      if_named-Gives IsKept tool_texts (tool_from read_stamp clock value) (λ e. (
        e,
        record {
          delivery = tt;
          path = sanitized_path-IsSafe (value "path");
          profile = sanitized_profile-HasFullMetadata (value "phantomSecurityProfile");
        },
      ))

  public_url_of-Gives :
      (clock : Stamp) (value : Object)
      → Gives (Named public_url_texts) (public_url_of read_stamp clock value)
  unfolding public_url_of
  public_url_of-Gives clock value =
      if_named-Gives (Named public_url_texts) public_url_texts
        (public_url_from read_stamp clock value) (λ e. e)

  history_entry_of-Gives :
      (clock : Stamp) (value : Object)
      → Gives (Named history_texts) (history_entry_of read_stamp clock value)
  unfolding history_entry_of
  history_entry_of-Gives clock value =
      if_named-Gives (Named history_texts) history_texts (history_entry_from read_stamp clock value)
        (λ e. e)

  exposure_of-Gives :
      (clock : Stamp) (value : Object)
      → Gives (Named exposure_texts) (exposure_of read_stamp clock value)
  unfolding exposure_of
  exposure_of-Gives clock value =
      if_named-Gives (Named exposure_texts) exposure_texts (exposure_from read_stamp clock value)
        (λ e. e)

  domain_of-Gives :
      (clock : Stamp) (value : Object)
      → Gives (Named domain_texts) (domain_of read_stamp clock value)
  unfolding domain_of
  domain_of-Gives clock value =
      if_named-Gives (Named domain_texts) domain_texts (domain_from read_stamp clock value) (λ e. e)

  address_of-Gives :
      (clock : Stamp) (value : Object)
      → Gives (Named address_texts) (address_of read_stamp clock value)
  unfolding address_of
  address_of-Gives clock value =
      bound_all (Gives (Named address_texts)) (word_in (value "kind")) _ tt (λ kind.
        if_named-Gives (Named address_texts) address_texts
          (address_from read_stamp kind clock value) (λ e. e))

  tools-IsKept :
      (env : Env) (vs : List Value) → All IsKept (all_sanitized (tool_of read_stamp) env 0 vs)
  tools-IsKept env vs = all_sanitized-All (tool_of read_stamp) IsKept tool_of-Gives env 0 vs

  records_of-IsStorable :
      (env : Env) (value : Object) → All IsStorable (records_of read_stamp env value).tools
  unfolding records_of
  records_of-IsStorable env value =
      let vs = items_in (value "tools") in
      All-weaken {P = IsKept} IsStorable (λ t h. h.1) (all_sanitized (tool_of read_stamp) env 0 vs)
        (tools-IsKept env vs)

  -- A list of which every record is named is left as it is.
  all_sanitized-Named :
      {A : Type 0} (of : Stamp → Object → Option A) (texts : A → List String)
      → ((clock : Stamp) (value : Object) → Gives (Named texts) (of clock value))
      → (env : Env) (n : ℕ) (vs : List Value)
      → filter (λ a. are_named (texts a)) (all_sanitized of env n vs) ≡ all_sanitized of env n vs
  all_sanitized-Named of texts gives env n vs =
      filter-All (λ a. are_named (texts a)) (all_sanitized of env n vs)
        (all_sanitized-All of (Named texts) gives env n vs)

  records_of-named :
      (env : Env) (value : Object)
      → named (records_of read_stamp env value) ≡ records_of read_stamp env value
  unfolding records_of
  records_of-named env value = λ i.
      let tools = items_in (value "tools") in
      let urls = items_in (value "publicUrls") in
      let addresses = items_in (value "addresses") in
      let entries = items_in (value "history") in
      let exposures = items_in (value "exposures") in
      let urls_at = length tools in
      let addresses_at = urls_at + length urls in
      let entries_at = addresses_at + length addresses in
      let exposures_at = entries_at + length entries in
      record {
        tools =
            filter-All (λ t. are_named (tool_texts t))
              (all_sanitized (tool_of read_stamp) env 0 tools)
              (All-weaken {P = IsKept} (Named tool_texts) (λ t h. h.0)
                (all_sanitized (tool_of read_stamp) env 0 tools) (tools-IsKept env tools))
              i;
        public_urls =
            all_sanitized-Named (public_url_of read_stamp) public_url_texts public_url_of-Gives env
              urls_at urls i;
        addresses =
            all_sanitized-Named (address_of read_stamp) address_texts address_of-Gives env
              addresses_at addresses i;
        history =
            all_sanitized-Named (history_entry_of read_stamp) history_texts history_entry_of-Gives
              env entries_at entries i;
        exposures =
            all_sanitized-Named (exposure_of read_stamp) exposure_texts exposure_of-Gives env
              exposures_at exposures i;
        domains =
            all_sanitized-Named (domain_of read_stamp) domain_texts domain_of-Gives env
              (exposures_at + length exposures) (items_in (value "domains")) i;
      }

-- Whatever a registry file holds, what a load keeps of it, saved and loaded again at any later time, is
-- the same: a second load drops nothing, fills in nothing and changes no field, for each way of
-- writing and reading instants that reads back what it wrote.
pub sanitize_records-again :
    (read_stamp : String → Stamp) (print_stamp : Stamp → String)
    → ((t : Stamp) → read_stamp (print_stamp t) ≡ t)
    → (env env' : Env) (v : Value)
    → sanitize_records read_stamp env'
        (records_value print_stamp (sanitize_records read_stamp env v))
      ≡ sanitize_records read_stamp env v
unfolding sanitize_records
sanitize_records-again read_stamp print_stamp reads env env' v =
    let value : Object = or_else (object_in (some v)) (λ name. none) in
    sanitize_records-saved read_stamp print_stamp reads env' (records_of read_stamp env value)
      (records_of-IsStorable read_stamp env value)
    ∙ records_of-named read_stamp env value
