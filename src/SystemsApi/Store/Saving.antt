-- ===== src/SystemsApi/Store/Saving.antt =====
-- The JSON values of the registry's records, as writeJsonStoreAtomic of src/persistence/json-store.ts
-- prints them: a field that is undefined is left out. How an instant is written is a parameter.
use mathlib.Core.Option
use nexus_cloud.Base.{Stamp, String, Option, some, List, [], ◌∷◌, map}
use nexus_cloud.Base.Json.{Value, arr, obj, num, str, flag, items_of, given_fields}
use nexus_cloud.SystemsApi.Types.{
  Tool, PhantomGuarantees, PhantomMetadata, PhantomProfile, PublicUrl, Address, HistoryEntry,
  ExposureRecord, DomainBinding,
}
use nexus_cloud.SystemsApi.Catalog.Validation.{text_values}
use nexus_cloud.SystemsApi.Store.{Records}
use nexus_cloud.SystemsApi.Store.PublishedWords.{
  url_status_word, exposure_status_word, address_status_word, kind_word, domain_status_word,
}
use nexus_cloud.SystemsApi.Store.Vocabulary.{
  mode_word, health_word, registration_word, tool_exposure_word, delivery_word, level_word,
  action_word,
}

abbrev pub text : String → Option Value
text s = some (str s)

abbrev pub text_if : Option String → Option Value
text_if s = Option.map str s

abbrev pub metadata_fields : PhantomMetadata → List (String × Option Value)
metadata_fields m =
    ("pqAlgorithms", Option.map text_values m.pq_algorithms)
    ∷ ("fheScheme", text_if m.fhe_scheme)
    ∷ ("zkProofSystem", text_if m.zk_proof_system)
    ∷ ("proofAttestation", text_if m.proof_attestation)
    ∷ ("proofEndpoint", text_if m.proof_endpoint)
    ∷ ("lastVerifiedAt", text_if m.last_verified_at)
    ∷ []

abbrev pub metadata_value : PhantomMetadata → Value
metadata_value m = obj (given_fields (metadata_fields m))

abbrev pub guarantee_fields : PhantomGuarantees → List (String × Option Value)
guarantee_fields g =
    ("postQuantum", some (flag g.post_quantum))
    ∷ ("fheTransport", some (flag g.fhe_transport))
    ∷ ("zkProofs", some (flag g.zk_proofs))
    ∷ []

abbrev pub profile_fields : PhantomProfile → List (String × Option Value)
profile_fields p =
    ("claimedSecured", some (flag p.claimed_secured))
    ∷ ("protectionLevel", text (level_word p.protection_level))
    ∷ ("guarantees", some (obj (given_fields (guarantee_fields p.guarantees))))
    ∷ ("metadata", Option.map metadata_value p.metadata)
    ∷ []

abbrev pub profile_value : PhantomProfile → Value
profile_value p = obj (given_fields (profile_fields p))

module _ (print_stamp : Stamp → String) where
  abbrev pub stamp : Stamp → Option Value
  stamp t = some (str (print_stamp t))

  abbrev pub stamp_if : Option Stamp → Option Value
  stamp_if t = Option.map (λ u. str (print_stamp u)) t

  abbrev pub tool_fields : Tool → List (String × Option Value)
  tool_fields t =
      ("id", text t.id)
      ∷ ("name", text t.name)
      ∷ ("description", text t.description)
      ∷ ("mode", text (mode_word t.mode))
      ∷ ("exposed", some (flag t.exposed))
      ∷ ("exposure", text (tool_exposure_word t.exposure))
      ∷ ("health", text (health_word t.health))
      ∷ ("registrationStatus", text (registration_word t.registration_status))
      ∷ ("capabilities", some (text_values t.capabilities))
      ∷ ("phantomSecurityProfile", Option.map profile_value t.phantom_security_profile)
      ∷ ("path", text_if t.path)
      ∷ ("publicUrl", text_if t.public_url)
      ∷ ("delivery", Option.map (λ d. str (delivery_word d)) t.delivery)
      ∷ ("upstreamUrl", text_if t.upstream_url)
      ∷ ("requiresAuth", Option.map flag t.requires_auth)
      ∷ ("lastHeartbeatAt", stamp_if t.last_heartbeat_at)
      ∷ ("heartbeatCount", some (num t.heartbeat_count))
      ∷ ("registeredAt", stamp t.registered_at)
      ∷ ("updatedAt", stamp t.updated_at)
      ∷ []

  abbrev pub public_url_fields : PublicUrl → List (String × Option Value)
  public_url_fields u =
      ("toolId", text u.tool_id)
      ∷ ("url", text u.url)
      ∷ ("status", text (url_status_word u.status))
      ∷ ("issuedAt", stamp u.issued_at)
      ∷ ("expiresAt", stamp u.expires_at)
      ∷ []

  abbrev pub address_fields : Address → List (String × Option Value)
  address_fields a =
      ("id", text a.id)
      ∷ ("toolId", text a.tool_id)
      ∷ ("kind", text (kind_word a.kind))
      ∷ ("subject", text a.subject)
      ∷ ("canonicalTarget", text a.canonical_target)
      ∷ ("publicAddress", text a.public_address)
      ∷ ("desiredHost", text_if a.desired_host)
      ∷ ("status", text (address_status_word a.status))
      ∷ ("requestedAt", stamp a.requested_at)
      ∷ ("activatedAt", stamp_if a.activated_at)
      ∷ ("revokedAt", stamp_if a.revoked_at)
      ∷ ("updatedAt", stamp a.updated_at)
      ∷ []

  abbrev pub history_fields : HistoryEntry → List (String × Option Value)
  history_fields e =
      ("toolId", text e.tool_id)
      ∷ ("action", text (action_word e.action))
      ∷ ("summary", text e.summary)
      ∷ ("at", stamp e.logged_at)
      ∷ []

  abbrev pub exposure_fields : ExposureRecord → List (String × Option Value)
  exposure_fields e =
      ("id", text e.id)
      ∷ ("toolId", text e.tool_id)
      ∷ ("canonicalUrl", text e.canonical_url)
      ∷ ("publicUrl", text e.public_url)
      ∷ ("desiredHost", text_if e.desired_host)
      ∷ ("status", text (exposure_status_word e.status))
      ∷ ("requestedAt", stamp e.requested_at)
      ∷ ("activatedAt", stamp_if e.activated_at)
      ∷ ("revokedAt", stamp_if e.revoked_at)
      ∷ ("updatedAt", stamp e.updated_at)
      ∷ []

  abbrev pub domain_fields : DomainBinding → List (String × Option Value)
  domain_fields b =
      ("domain", text b.domain)
      ∷ ("toolId", text b.tool_id)
      ∷ ("canonicalUrl", text b.canonical_url)
      ∷ ("publicUrl", text b.public_url)
      ∷ ("verificationToken", text b.verification_token)
      ∷ ("verificationIssuedAt", stamp b.verification_issued_at)
      ∷ ("verificationExpiresAt", stamp b.verification_expires_at)
      ∷ ("status", text (domain_status_word b.status))
      ∷ ("requestedAt", stamp b.requested_at)
      ∷ ("verifiedAt", stamp_if b.verified_at)
      ∷ ("revokedAt", stamp_if b.revoked_at)
      ∷ ("updatedAt", stamp b.updated_at)
      ∷ []

  -- A list of records.
  abbrev pub list_value : {A : Type 0} → (A → List (String × Option Value)) → List A → Option Value
  list_value fields xs = some (arr (items_of (map (λ x. obj (given_fields (fields x))) xs)))

  -- A registry, less its catalog.
  abbrev pub records_fields : Records → List (String × Option Value)
  records_fields r =
      ("tools", list_value tool_fields r.tools)
      ∷ ("publicUrls", list_value public_url_fields r.public_urls)
      ∷ ("addresses", list_value address_fields r.addresses)
      ∷ ("history", list_value history_fields r.history)
      ∷ ("exposures", list_value exposure_fields r.exposures)
      ∷ ("domains", list_value domain_fields r.domains)
      ∷ []

  abbrev pub records_value : Records → Value
  records_value r = obj (given_fields (records_fields r))
