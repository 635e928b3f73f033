-- ===== src/SystemsApi/Store/Loading.antt =====
-- A record of the registry that is saved is loaded as it was: src/systems-api/store.ts.
use mathlib.Core.Option
use nexus_cloud.Base.{
  if◌then◌else◌, or_else, Stamp, String, ◌≡◌, refl, ap, ◌∙◌, Bool, true, Option, none, some, List,
  [], ◌∷◌, map,
}
use nexus_cloud.Base.Json.{
  Value, obj, str, flag, listed-items_of, get_field, given, given_fields, field_in-given_fields,
}
use nexus_cloud.SystemsApi.Types.{
  Tool, Delivery, Mode, ToolExposure, ToolHealth, RegistrationStatus, ProtectionLevel,
  PublicUrlStatus, AddressStatus, ExposureStatus, DomainStatus, HistoryAction, PhantomMetadata,
  PhantomProfile, PublicUrl, Address, HistoryEntry, ExposureRecord, DomainBinding,
}
use nexus_cloud.SystemsApi.Paths.{is_safe_relative_path}
use nexus_cloud.SystemsApi.Catalog.Validation.{◌>>=◌, text_values}
use nexus_cloud.SystemsApi.Catalog.RoundTrip.{is_one_of-word}
use nexus_cloud.SystemsApi.Store.Objects.{
  Object, text_in, flag_in, word_in, object_in, texts_among, unless_empty, to_string_array,
  has_metadata, sanitize_relative_path, metadata_of, profile_of, sanitize_phantom_security_metadata,
  sanitize_phantom_security_profile,
}
use nexus_cloud.SystemsApi.Store.{
  if_named, tool_texts, public_url_texts, address_texts, history_texts, exposure_texts,
  domain_texts, stamp_in, default_delivery, tool_of, public_url_of, address_of, history_entry_of,
  exposure_of, domain_of,
}
use nexus_cloud.SystemsApi.Store.Saving.{
  text_if, stamp_if, metadata_fields, metadata_value, guarantee_fields, profile_fields,
  profile_value, tool_fields, public_url_fields, address_fields, history_fields, exposure_fields,
  domain_fields,
}
use nexus_cloud.SystemsApi.Store.PublishedWords.{
  url_status_words, exposure_status_words, address_status_words, kind_words, domain_status_words,
}
use nexus_cloud.SystemsApi.Store.Vocabulary.{
  delivery_word, mode_words, health_words, registration_words, tool_exposure_words, delivery_words,
  level_words, action_words,
}

-- What a tool's optional fields must be to be kept.
abbrev pub IsDelivered : Option Delivery → Type 0
IsDelivered none = ⊥
IsDelivered (some d) = Unit

abbrev pub IsSafe : Option String → Type 0
IsSafe none = Unit
IsSafe (some path) = is_safe_relative_path path ≡ true

abbrev pub HasAlgorithms : Option (List String) → Type 0
HasAlgorithms none = Unit
HasAlgorithms (some []) = ⊥
HasAlgorithms (some (s ∷ ss)) = Unit

abbrev pub IsFull : Option PhantomMetadata → Type 0
IsFull none = Unit
IsFull (some m) = (has_metadata m ≡ true) × HasAlgorithms m.pq_algorithms

abbrev pub HasFullMetadata : Option PhantomProfile → Type 0
HasFullMetadata none = Unit
HasFullMetadata (some p) = IsFull p.metadata

pub record IsStorable (t : Tool) : Type 0 where
  pub delivery : IsDelivered t.delivery
  pub path : IsSafe t.path
  pub profile : HasFullMetadata t.phantom_security_profile

pub object_in-given :
    (fs : List (String × Option Value)) → object_in (some (obj (given_fields fs))) ≡ some (given fs)
unfolding get_field
object_in-given fs = λ i. some (λ name. field_in-given_fields fs name i)

text_in-text_if : (s : Option String) → text_in (text_if s) ≡ s
text_in-text_if none = refl
text_in-text_if (some s) = refl

flag_in-flag : (b : Option Bool) → flag_in (Option.map flag b) ≡ b
flag_in-flag none = refl
flag_in-flag (some b) = refl

texts_among-texts : (ss : List String) → texts_among (map str ss) ≡ ss
texts_among-texts [] = refl
texts_among-texts (s ∷ ss) = rw (texts_among-texts ss)

to_string_array-texts : (ss : List String) → to_string_array (some (text_values ss)) ≡ ss
to_string_array-texts ss = rw (listed-items_of (map str ss)) (texts_among-texts ss)

algorithms-kept :
    (ss : Option (List String))
    → HasAlgorithms ss
    → unless_empty (to_string_array (Option.map text_values ss)) ≡ ss
algorithms-kept none h = refl
algorithms-kept (some []) h = absurd h
algorithms-kept (some (s ∷ ss)) h = rw (to_string_array-texts (s ∷ ss))

path-kept : (path : Option String) → IsSafe path → sanitize_relative_path (text_if path) ≡ path
unfolding sanitize_relative_path
path-kept none h = refl
path-kept (some path) h = rw h

pub read_back :
    {A : Type 0} (of : Object → Option A) (fs : List (String × Option Value))
    → (object_in (some (obj (given_fields fs))) >>= of) ≡ of (given fs)
read_back of fs = ap (λ o. o >>= of) (object_in-given fs)

metadata-kept :
    (m : Option PhantomMetadata)
    → IsFull m
    → sanitize_phantom_security_metadata (Option.map metadata_value m) ≡ m
unfolding metadata_of
metadata-kept none h = refl
metadata-kept (some m) h =
    read_back metadata_of (metadata_fields m)
    ∙ (λ i.
        let kept : PhantomMetadata = record {
          pq_algorithms = algorithms-kept m.pq_algorithms h.1 i;
          fhe_scheme = text_in-text_if m.fhe_scheme i;
          zk_proof_system = text_in-text_if m.zk_proof_system i;
          proof_attestation = text_in-text_if m.proof_attestation i;
          proof_endpoint = text_in-text_if m.proof_endpoint i;
          last_verified_at = text_in-text_if m.last_verified_at i;
        } in
        if has_metadata kept then some kept else none)
    ∙ rw (h.0)

profile-kept :
    (p : Option PhantomProfile)
    → HasFullMetadata p
    → sanitize_phantom_security_profile (Option.map profile_value p) ≡ p
unfolding profile_of
profile-kept none h = refl
profile-kept (some p) h =
    read_back (λ value. object_in (value "guarantees") >>= profile_of value) (profile_fields p)
    ∙ read_back (profile_of (given (profile_fields p))) (guarantee_fields p.guarantees)
    ∙ (λ i. some (record {
      claimed_secured = p.claimed_secured;
      protection_level = or_else (is_one_of-word p.protection_level i) ProtectionLevel.transitional;
      guarantees = p.guarantees;
      metadata = metadata-kept p.metadata h i;
    }))

module _ (read_stamp : String → Stamp) (print_stamp : Stamp → String)
    (reads : (t : Stamp) → read_stamp (print_stamp t) ≡ t) where
  stamp_in-stamp_if : (t : Option Stamp) → stamp_in read_stamp (stamp_if print_stamp t) ≡ t
  stamp_in-stamp_if none = refl
  stamp_in-stamp_if (some t) = rw (reads t)

  delivery-kept :
      (d : Option Delivery) (default : Delivery)
      → IsDelivered d
      → some (or_else (word_in (Option.map (λ x. str (delivery_word x)) d)) default) ≡ d
  delivery-kept none default h = absurd h
  delivery-kept (some d) default h = λ i. some (or_else (is_one_of-word d i) default)

  -- A tool is loaded as it was saved, unless its id, its name or its description is empty.
  pub tool-kept :
      (clock : Stamp) (t : Tool)
      → IsStorable t
      → tool_of read_stamp clock (given (tool_fields print_stamp t)) ≡ if_named tool_texts t
  unfolding tool_of
  tool-kept clock t h = λ i. if_named tool_texts (record {
    id = t.id;
    name = t.name;
    description = t.description;
    mode = or_else (is_one_of-word t.mode i) Mode.standalone;
    exposed = t.exposed;
    exposure =
        or_else (is_one_of-word t.exposure i)
          (if t.exposed then ToolExposure.public else ToolExposure.private);
    health = or_else (is_one_of-word t.health i) ToolHealth.healthy;
    registration_status =
        or_else (is_one_of-word t.registration_status i) RegistrationStatus.registered;
    capabilities = to_string_array-texts t.capabilities i;
    phantom_security_profile = profile-kept t.phantom_security_profile h.profile i;
    path = path-kept t.path h.path i;
    public_url = text_in-text_if t.public_url i;
    delivery =
        delivery-kept t.delivery (default_delivery (text_in (text_if t.public_url))) h.delivery i;
    upstream_url = text_in-text_if t.upstream_url i;
    requires_auth = flag_in-flag t.requires_auth i;
    last_heartbeat_at = stamp_in-stamp_if t.last_heartbeat_at i;
    heartbeat_count = t.heartbeat_count;
    registered_at = reads t.registered_at i;
    updated_at = reads t.updated_at i;
  })

  pub public_url-kept :
      (clock : Stamp) (u : PublicUrl)
      → public_url_of read_stamp clock (given (public_url_fields print_stamp u))
        ≡ if_named public_url_texts u
  unfolding public_url_of
  public_url-kept clock u = λ i. if_named public_url_texts (record {
    tool_id = u.tool_id;
    url = u.url;
    status = or_else (is_one_of-word u.status i) PublicUrlStatus.active;
    issued_at = reads u.issued_at i;
    expires_at = reads u.expires_at i;
  })

  pub address-kept :
      (clock : Stamp) (a : Address)
      → address_of read_stamp clock (given (address_fields print_stamp a))
        ≡ if_named address_texts a
  unfolding address_of
  address-kept clock a = λ i. is_one_of-word a.kind i >>= λ kind. if_named address_texts (record {
    id = a.id;
    tool_id = a.tool_id;
    kind = kind;
    subject = a.subject;
    canonical_target = a.canonical_target;
    public_address = a.public_address;
    desired_host = text_in-text_if a.desired_host i;
    status = or_else (is_one_of-word a.status i) AddressStatus.requested;
    requested_at = reads a.requested_at i;
    activated_at = stamp_in-stamp_if a.activated_at i;
    revoked_at = stamp_in-stamp_if a.revoked_at i;
    updated_at = reads a.updated_at i;
  })

  pub history-kept :
      (clock : Stamp) (e : HistoryEntry)
      → history_entry_of read_stamp clock (given (history_fields print_stamp e))
        ≡ if_named history_texts e
  unfolding history_entry_of
  history-kept clock e = λ i. if_named history_texts (record {
    tool_id = e.tool_id;
    action = or_else (is_one_of-word e.action i) HistoryAction.updated;
    summary = e.summary;
    logged_at = reads e.logged_at i;
  })

  pub exposure-kept :
      (clock : Stamp) (e : ExposureRecord)
      → exposure_of read_stamp clock (given (exposure_fields print_stamp e))
        ≡ if_named exposure_texts e
  unfolding exposure_of
  exposure-kept clock e = λ i. if_named exposure_texts (record {
    id = e.id;
    tool_id = e.tool_id;
    canonical_url = e.canonical_url;
    public_url = e.public_url;
    desired_host = text_in-text_if e.desired_host i;
    status = or_else (is_one_of-word e.status i) ExposureStatus.requested;
    requested_at = reads e.requested_at i;
    activated_at = stamp_in-stamp_if e.activated_at i;
    revoked_at = stamp_in-stamp_if e.revoked_at i;
    updated_at = reads e.updated_at i;
  })

  pub domain-kept :
      (clock : Stamp) (b : DomainBinding)
      → domain_of read_stamp clock (given (domain_fields print_stamp b)) ≡ if_named domain_texts b
  unfolding domain_of
  domain-kept clock b = λ i. if_named domain_texts (record {
    domain = b.domain;
    tool_id = b.tool_id;
    canonical_url = b.canonical_url;
    public_url = b.public_url;
    verification_token = b.verification_token;
    verification_issued_at = reads b.verification_issued_at i;
    verification_expires_at = reads b.verification_expires_at i;
    status = or_else (is_one_of-word b.status i) DomainStatus.pending;
    requested_at = reads b.requested_at i;
    verified_at = stamp_in-stamp_if b.verified_at i;
    revoked_at = stamp_in-stamp_if b.revoked_at i;
    updated_at = reads b.updated_at i;
  })
