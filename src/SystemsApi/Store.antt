-- ===== src/SystemsApi/Store.antt =====
-- The records of the registry as its file holds them: what src/systems-api/store.ts keeps of a JSON
-- value. How a text is read as an instant is a parameter; each record that lacks an instant reads the
-- clock at most once.
pub mod Vocabulary
pub mod PublishedWords
pub mod Objects
pub mod Saving
pub mod Loading
pub mod Reloading
pub mod Settled
use nexus_cloud.SystemsApi.Store.Objects.{
  Object, text_in, flag_in, count_in, word_in, is_truthy, object_in, to_string_array, are_named,
  sanitize_relative_path, profile_of, sanitize_phantom_security_profile,
}
use mathlib.Core.Option
use nexus_cloud.Base.{
  if◌then◌else◌, or_else, length, Stamp, Env, now, ℕ, suc, ◌+◌, String, Option, none, some, List,
  [], ◌∷◌, ◌==◌,
}
use nexus_cloud.Base.Json.{Value, arr, listed}
use nexus_cloud.SystemsApi.Types.{
  Tool, ToolExposure, PublicUrl, Address, HistoryEntry, ExposureRecord, DomainBinding, Mode,
  ToolHealth, RegistrationStatus, Delivery, PublicUrlStatus, AddressStatus, AddressKind,
  HistoryAction, ExposureStatus, DomainStatus,
}
use nexus_cloud.SystemsApi.Catalog.Validation.{◌>>=◌}
use nexus_cloud.SystemsApi.Store.PublishedWords.{
  url_status_words, exposure_status_words, address_status_words, kind_words, domain_status_words,
}
use nexus_cloud.SystemsApi.Store.Vocabulary.{
  mode_words, health_words, registration_words, tool_exposure_words, delivery_words, level_words,
  action_words,
}

-- The texts of a record without which it is dropped.
abbrev pub tool_texts : Tool → List String
tool_texts t = t.id ∷ t.name ∷ t.description ∷ []

abbrev pub public_url_texts : PublicUrl → List String
public_url_texts p = p.tool_id ∷ p.url ∷ []

abbrev pub address_texts : Address → List String
address_texts a = a.id ∷ a.tool_id ∷ a.subject ∷ a.canonical_target ∷ a.public_address ∷ []

abbrev pub history_texts : HistoryEntry → List String
history_texts h = h.tool_id ∷ h.summary ∷ []

abbrev pub exposure_texts : ExposureRecord → List String
exposure_texts e = e.id ∷ e.tool_id ∷ e.canonical_url ∷ e.public_url ∷ []

abbrev pub domain_texts : DomainBinding → List String
domain_texts d = d.domain ∷ d.tool_id ∷ d.canonical_url ∷ d.public_url ∷ d.verification_token ∷ []

unfoldable pub if_named : {A : Type 0} → (A → List String) → A → Option A
if_named texts a = if are_named (texts a) then some a else none

-- `publicUrl ? "framed" : "shell-native"`
abbrev pub default_delivery : Option String → Delivery
default_delivery none = Delivery.shell_native
default_delivery (some url) = if url == "" then Delivery.shell_native else Delivery.framed

module _ (read_stamp : String → Stamp) where
  abbrev pub stamp_in : Option Value → Option Stamp
  stamp_in v = Option.map read_stamp (text_in v)

  -- `sanitizeTool`, of an object and what the clock reads
  unfoldable pub tool_from : Stamp → Object → Tool
  unfolding sanitize_relative_path profile_of
  tool_from clock value =
      let id = or_else (text_in (value "id")) "" in
      let name = or_else (text_in (value "name")) "" in
      let description = or_else (text_in (value "description")) "" in
      let registered_at = or_else (stamp_in (value "registeredAt")) clock in
      let public_url = text_in (value "publicUrl") in
      record {
        id = id;
        name = name;
        description = description;
        mode = or_else (word_in (value "mode")) Mode.standalone;
        exposed = is_truthy (value "exposed");
        exposure =
            or_else (word_in (value "exposure"))
              (if is_truthy (value "exposed") then ToolExposure.public else ToolExposure.private);
        health = or_else (word_in (value "health")) ToolHealth.healthy;
        registration_status =
            or_else (word_in (value "registrationStatus")) RegistrationStatus.registered;
        capabilities = to_string_array (value "capabilities");
        phantom_security_profile =
            sanitize_phantom_security_profile (value "phantomSecurityProfile");
        path = sanitize_relative_path (value "path");
        public_url = public_url;
        delivery = some (or_else (word_in (value "delivery")) (default_delivery public_url));
        upstream_url = text_in (value "upstreamUrl");
        requires_auth = flag_in (value "requiresAuth");
        last_heartbeat_at = stamp_in (value "lastHeartbeatAt");
        heartbeat_count = or_else (count_in (value "heartbeatCount")) 0;
        registered_at = registered_at;
        updated_at = or_else (stamp_in (value "updatedAt")) registered_at;
      }

  unfoldable pub tool_of : Stamp → Object → Option Tool
  unfolding tool_from if_named
  tool_of clock value = if_named tool_texts (tool_from clock value)

  -- `sanitizePublicUrl`
  unfoldable pub public_url_from : Stamp → Object → PublicUrl
  public_url_from clock value =
      let tool_id = or_else (text_in (value "toolId")) "" in
      let url = or_else (text_in (value "url")) "" in
      let issued_at = or_else (stamp_in (value "issuedAt")) clock in
      record {
        tool_id = tool_id;
        url = url;
        status = or_else (word_in (value "status")) PublicUrlStatus.active;
        issued_at = issued_at;
        expires_at = or_else (stamp_in (value "expiresAt")) issued_at;
      }

  unfoldable pub public_url_of : Stamp → Object → Option PublicUrl
  unfolding public_url_from if_named
  public_url_of clock value = if_named public_url_texts (public_url_from clock value)

  -- `sanitizeAddress`
  unfoldable pub address_from : AddressKind → Stamp → Object → Address
  address_from kind clock value =
      let id = or_else (text_in (value "id")) "" in
      let tool_id = or_else (text_in (value "toolId")) "" in
      let subject = or_else (text_in (value "subject")) "" in
      let target = or_else (text_in (value "canonicalTarget")) "" in
      let public_address = or_else (text_in (value "publicAddress")) "" in
      let requested_at = or_else (stamp_in (value "requestedAt")) clock in
      record {
        id = id;
        tool_id = tool_id;
        kind = kind;
        subject = subject;
        canonical_target = target;
        public_address = public_address;
        desired_host = text_in (value "desiredHost");
        status = or_else (word_in (value "status")) AddressStatus.requested;
        requested_at = requested_at;
        activated_at = stamp_in (value "activatedAt");
        revoked_at = stamp_in (value "revokedAt");
        updated_at = or_else (stamp_in (value "updatedAt")) requested_at;
      }

  unfoldable pub address_of : Stamp → Object → Option Address
  unfolding address_from if_named
  address_of clock value =
      word_in (value "kind") >>= λ kind. if_named address_texts (address_from kind clock value)

  -- `sanitizeHistoryEntry`
  unfoldable pub history_entry_from : Stamp → Object → HistoryEntry
  history_entry_from clock value =
      let tool_id = or_else (text_in (value "toolId")) "" in
      let summary = or_else (text_in (value "summary")) "" in
      record {
        tool_id = tool_id;
        action = or_else (word_in (value "action")) HistoryAction.updated;
        summary = summary;
        logged_at = or_else (stamp_in (value "at")) clock;
      }

  unfoldable pub history_entry_of : Stamp → Object → Option HistoryEntry
  unfolding history_entry_from if_named
  history_entry_of clock value = if_named history_texts (history_entry_from clock value)

  -- `sanitizeExposureRecord`
  unfoldable pub exposure_from : Stamp → Object → ExposureRecord
  exposure_from clock value =
      let id = or_else (text_in (value "id")) "" in
      let tool_id = or_else (text_in (value "toolId")) "" in
      let canonical_url = or_else (text_in (value "canonicalUrl")) "" in
      let public_url = or_else (text_in (value "publicUrl")) "" in
      let requested_at = or_else (stamp_in (value "requestedAt")) clock in
      record {
        id = id;
        tool_id = tool_id;
        canonical_url = canonical_url;
        public_url = public_url;
        desired_host = text_in (value "desiredHost");
        status = or_else (word_in (value "status")) ExposureStatus.requested;
        requested_at = requested_at;
        activated_at = stamp_in (value "activatedAt");
        revoked_at = stamp_in (value "revokedAt");
        updated_at = or_else (stamp_in (value "updatedAt")) requested_at;
      }

  unfoldable pub exposure_of : Stamp → Object → Option ExposureRecord
  unfolding exposure_from if_named
  exposure_of clock value = if_named exposure_texts (exposure_from clock value)

  -- `sanitizeDomainBinding`
  unfoldable pub domain_from : Stamp → Object → DomainBinding
  domain_from clock value =
      let domain = or_else (text_in (value "domain")) "" in
      let tool_id = or_else (text_in (value "toolId")) "" in
      let canonical_url = or_else (text_in (value "canonicalUrl")) "" in
      let public_url = or_else (text_in (value "publicUrl")) "" in
      let token = or_else (text_in (value "verificationToken")) "" in
      let issued_at = or_else (stamp_in (value "verificationIssuedAt")) clock in
      let requested_at = or_else (stamp_in (value "requestedAt")) issued_at in
      record {
        domain = domain;
        tool_id = tool_id;
        canonical_url = canonical_url;
        public_url = public_url;
        verification_token = token;
        verification_issued_at = issued_at;
        verification_expires_at = or_else (stamp_in (value "verificationExpiresAt")) issued_at;
        status = or_else (word_in (value "status")) DomainStatus.pending;
        requested_at = requested_at;
        verified_at = stamp_in (value "verifiedAt");
        revoked_at = stamp_in (value "revokedAt");
        updated_at = or_else (stamp_in (value "updatedAt")) requested_at;
      }

  unfoldable pub domain_of : Stamp → Object → Option DomainBinding
  unfolding domain_from if_named
  domain_of clock value = if_named domain_texts (domain_from clock value)

-- A sanitizer of objects, on any value.
abbrev pub sanitized : {A : Type 0} → (Object → Option A) → Value → Option A
sanitized of v = object_in (some v) >>= of

abbrev pub prepend_if : {A : Type 0} → Option A → List A → List A
prepend_if none rest = rest
prepend_if (some a) rest = a ∷ rest

-- `values.map(sanitize).filter((item) => item !== null)`; the items read the clock in turn.
unfoldable pub all_sanitized :
    {A : Type 0} → (Stamp → Object → Option A) → Env → ℕ → List Value → List A
all_sanitized of env n [] = []
all_sanitized of env n (v ∷ vs) =
    prepend_if (sanitized (of (now env n)) v) (all_sanitized of env (suc n) vs)

abbrev pub items_in : Option Value → List Value
items_in (some (arr vs)) = listed vs
items_in _ = []

-- The lists of a registry; the catalog stands beside them.
pub record Records : Type 0 where
  pub tools : List Tool
  pub public_urls : List PublicUrl
  pub addresses : List Address
  pub history : List HistoryEntry
  pub exposures : List ExposureRecord
  pub domains : List DomainBinding

-- `sanitizeRegistry` of an object, without its catalog
unfoldable pub records_of : (String → Stamp) → Env → Object → Records
unfolding all_sanitized tool_of public_url_of address_of history_entry_of exposure_of domain_of
records_of read_stamp env value =
    let tools = items_in (value "tools") in
    let urls = items_in (value "publicUrls") in
    let addresses = items_in (value "addresses") in
    let entries = items_in (value "history") in
    let exposures = items_in (value "exposures") in
    let domains = items_in (value "domains") in
    let urls_at = length tools in
    let addresses_at = urls_at + length urls in
    let entries_at = addresses_at + length addresses in
    let exposures_at = entries_at + length entries in
    record {
      tools = all_sanitized (tool_of read_stamp) env 0 tools;
      public_urls = all_sanitized (public_url_of read_stamp) env urls_at urls;
      addresses = all_sanitized (address_of read_stamp) env addresses_at addresses;
      history = all_sanitized (history_entry_of read_stamp) env entries_at entries;
      exposures = all_sanitized (exposure_of read_stamp) env exposures_at exposures;
      domains = all_sanitized (domain_of read_stamp) env (exposures_at + length exposures) domains;
    }

-- Any other value gives an empty registry, as an object without fields does.
unfoldable pub sanitize_records : (String → Stamp) → Env → Value → Records
unfolding records_of
sanitize_records read_stamp env v =
    records_of read_stamp env (or_else (object_in (some v)) (λ name. none))
