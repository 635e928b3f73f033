-- ===== src/SystemsApi/Store/Reloading.antt =====
-- A registry that is saved is loaded as it was: src/systems-api/store.ts.
use nexus_cloud.Base.{
  Bool-cases, or_else, length, filter, All, Stamp, Env, now, ℕ, suc, ◌+◌, String, ◌≡◌, refl, ap,
  ◌∙◌, inl, inr, Option, none, List, [], ◌∷◌, map,
}
use nexus_cloud.Base.Json.{Value, obj, listed, items_of, listed-items_of, given, given_fields}
use nexus_cloud.SystemsApi.Store.Objects.{Object, are_named}
use nexus_cloud.SystemsApi.Store.{
  if_named, tool_texts, public_url_texts, address_texts, history_texts, exposure_texts,
  domain_texts, Records, prepend_if, all_sanitized, items_in, tool_of, public_url_of, address_of,
  history_entry_of, exposure_of, domain_of, records_of, sanitize_records,
}
use nexus_cloud.SystemsApi.Store.Saving.{
  tool_fields, public_url_fields, address_fields, history_fields, exposure_fields, domain_fields,
  records_fields, records_value,
}
use nexus_cloud.SystemsApi.Store.Loading.{
  IsStorable, object_in-given, read_back, tool-kept, public_url-kept, address-kept, history-kept,
  exposure-kept, domain-kept,
}

-- The records of a registry none of whose required texts is empty.
abbrev pub named : Records → Records
named r = record {
  tools = filter (λ t. are_named (tool_texts t)) r.tools;
  public_urls = filter (λ u. are_named (public_url_texts u)) r.public_urls;
  addresses = filter (λ a. are_named (address_texts a)) r.addresses;
  history = filter (λ e. are_named (history_texts e)) r.history;
  exposures = filter (λ e. are_named (exposure_texts e)) r.exposures;
  domains = filter (λ b. are_named (domain_texts b)) r.domains;
}

prepend_if-filter :
    {A : Type 0} (texts : A → List String) (x : A) (xs : List A)
    → prepend_if (if_named texts x) (filter (λ y. are_named (texts y)) xs)
      ≡ filter (λ y. are_named (texts y)) (x ∷ xs)
unfolding if_named
prepend_if-filter texts x xs = elim (Bool-cases (are_named (texts x))) [
  | inl e ↦ rw e
  | inr e ↦ rw e
]

-- A list whose items are each kept or dropped.
module _ {A : Type 0} (of : Stamp → Object → Option A) (fields : A → List (String × Option Value))
    (texts : A → List String) (P : A → Type 0)
    (kept : (clock : Stamp) (x : A) → P x → of clock (given (fields x)) ≡ if_named texts x) where
  all_sanitized-kept :
      (env : Env) (n : ℕ) (xs : List A)
      → All P xs
      → all_sanitized of env n (map (λ x. obj (given_fields (fields x))) xs)
        ≡ filter (λ y. are_named (texts y)) xs
  unfolding all_sanitized
  all_sanitized-kept env n [] h = refl
  all_sanitized-kept env n (x ∷ xs) h =
      let one = read_back (of (now env n)) (fields x) ∙ kept (now env n) x h.0 in
      let rest = all_sanitized-kept env (suc n) xs h.1 in
      (λ i. prepend_if (one i) (rest i)) ∙ prepend_if-filter texts x xs

  list-kept :
      (env : Env) (n : ℕ) (xs : List A)
      → All P xs
      → all_sanitized of env n (listed (items_of (map (λ x. obj (given_fields (fields x))) xs)))
        ≡ filter (λ y. are_named (texts y)) xs
  list-kept env n xs h =
      ap (all_sanitized of env n) (listed-items_of _) ∙ all_sanitized-kept env n xs h

any_of : {A : Type 0} (xs : List A) → All (λ x. Unit {0}) xs
any_of [] = tt
any_of (x ∷ xs) = (tt, any_of xs)

-- A registry that is saved and loaded again is the same, in every field of every record, less the
-- records in which a required text is empty: an id, a name, a description, a URL, a subject, a
-- target, a domain, a token or a summary. Its tools must be as every load leaves them: with a way of
-- delivery, with a safe path if any, and with security metadata, if any, that are not empty and hold
-- no empty list of algorithms. It holds for each way of writing and reading instants that reads back
-- what it wrote, whatever the clock reads.
pub sanitize_records-saved :
    (read_stamp : String → Stamp) (print_stamp : Stamp → String)
    → ((t : Stamp) → read_stamp (print_stamp t) ≡ t)
    → (env : Env) (r : Records) → All IsStorable r.tools
    → sanitize_records read_stamp env (records_value print_stamp r) ≡ named r
unfolding sanitize_records records_of
sanitize_records-saved read_stamp print_stamp reads env r h =
    ap (λ o. records_of read_stamp env (or_else o (λ name. none)))
      (object_in-given (records_fields print_stamp r))
    ∙ (λ i.
        let value = given (records_fields print_stamp r) in
        let urls_at = length (items_in (value "tools")) in
        let addresses_at = urls_at + length (items_in (value "publicUrls")) in
        let entries_at = addresses_at + length (items_in (value "addresses")) in
        let exposures_at = entries_at + length (items_in (value "history")) in
        let domains_at = exposures_at + length (items_in (value "exposures")) in
        record {
          tools =
              list-kept (tool_of read_stamp) (tool_fields print_stamp) tool_texts IsStorable
                (tool-kept read_stamp print_stamp reads) env 0 r.tools h i;
          public_urls =
              list-kept (public_url_of read_stamp) (public_url_fields print_stamp) public_url_texts
                (λ x. Unit) (λ c u _. public_url-kept read_stamp print_stamp reads c u) env urls_at
                r.public_urls (any_of r.public_urls) i;
          addresses =
              list-kept (address_of read_stamp) (address_fields print_stamp) address_texts
                (λ x. Unit) (λ c a _. address-kept read_stamp print_stamp reads c a) env
                addresses_at r.addresses (any_of r.addresses) i;
          history =
              list-kept (history_entry_of read_stamp) (history_fields print_stamp) history_texts
                (λ x. Unit) (λ c e _. history-kept read_stamp print_stamp reads c e) env entries_at
                r.history (any_of r.history) i;
          exposures =
              list-kept (exposure_of read_stamp) (exposure_fields print_stamp) exposure_texts
                (λ x. Unit) (λ c e _. exposure-kept read_stamp print_stamp reads c e) env
                exposures_at r.exposures (any_of r.exposures) i;
          domains =
              list-kept (domain_of read_stamp) (domain_fields print_stamp) domain_texts (λ x. Unit)
                (λ c b _. domain-kept read_stamp print_stamp reads c b) env domains_at r.domains
                (any_of r.domains) i;
        })
