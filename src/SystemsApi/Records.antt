-- ===== src/SystemsApi/Records.antt =====
-- The life of addresses, exposures and domain bindings: src/systems-api/address.ts,
-- src/systems-api/exposure.ts and src/systems-api/domains.ts. The argument `cloud_domain` is
-- `cloudConfig.cloudDomain`.
use nexus_cloud.Base.{
  if◌then◌else◌, or_else, template, trim, lower, has_prefix, take_chars, underscored, Stamp,
  parse_stamp, is_before, at, ℕ, ◌+◌, String, Bool, true, false, ◌||◌, Option, none, some, [], ◌∷◌,
  ◌==◌,
}
use nexus_cloud.SystemsApi.Types.{
  AddressKind, AddressStatus, Address, ExposureStatus, ExposureRecord, DomainStatus, DomainBinding,
}

-- `value?.trim() || fallback`
unfoldable pub trimmed_or : Option String → String → String
trimmed_or none fallback = fallback
trimmed_or (some s) fallback = let t = trim s in if t == "" then fallback else t

abbrev pub has_scheme : String → Bool
has_scheme host = has_prefix host "http://" || has_prefix host "https://"

-- `host.startsWith("http://") || host.startsWith("https://") ? host : `https://${host}``
unfoldable pub with_scheme : String → String
with_scheme host = if has_scheme host then host else template ("https://" ∷ host ∷ [])

unfoldable pub normalize_subject : Option String → String → String
normalize_subject subject fallback = lower (trimmed_or subject fallback)

-- `record.activatedAt ?? at` for the status active, and what the record had for any other
abbrev pub stamp_if : Bool → Option Stamp → Stamp → Option Stamp
stamp_if true old t = some (or_else old t)
stamp_if false old t = old

abbrev pub new_stamp_if : Bool → Option Stamp → Stamp → Option Stamp
new_stamp_if true old t = some t
new_stamp_if false old t = old

abbrev pub address_is_active : AddressStatus → Bool
address_is_active AddressStatus.active = true
address_is_active _ = false

abbrev pub address_is_revoked : AddressStatus → Bool
address_is_revoked AddressStatus.revoked = true
address_is_revoked _ = false

abbrev pub exposure_is_active : ExposureStatus → Bool
exposure_is_active ExposureStatus.active = true
exposure_is_active _ = false

abbrev pub exposure_is_revoked : ExposureStatus → Bool
exposure_is_revoked ExposureStatus.revoked = true
exposure_is_revoked _ = false

abbrev pub domain_is_verified : DomainStatus → Bool
domain_is_verified DomainStatus.verified = true
domain_is_verified _ = false

abbrev pub domain_is_revoked : DomainStatus → Bool
domain_is_revoked DomainStatus.revoked = true
domain_is_revoked _ = false

pub record AddressRequest : Type 0 where
  pub tool_id : String
  pub kind : AddressKind
  pub subject : Option String
  pub desired_host : Option String

pub record DomainChallenge : Type 0 where
  pub domain : String
  pub token : String
  pub issued_at : Stamp
  pub expires_at : Stamp
  pub status : DomainStatus

-- `buildVerificationToken`, with the UUID it draws
unfoldable pub build_verification_token : String → String → String → String
build_verification_token uuid domain tool_id =
    template ("verify_" ∷ tool_id ∷ "_" ∷ underscored domain ∷ "_" ∷ take_chars 8 uuid ∷ [])

unfoldable pub transition_address_record : Address → AddressStatus → String → Stamp → Address
transition_address_record a status public_address t = record a {
  public_address = public_address;
  status = status;
  activated_at = stamp_if (address_is_active status) a.activated_at t;
  revoked_at = new_stamp_if (address_is_revoked status) a.revoked_at t;
  updated_at = t;
}

unfoldable pub revoke_address_record : Stamp → Address → Address
unfolding transition_address_record
revoke_address_record t a = transition_address_record a AddressStatus.revoked a.public_address t

unfoldable pub transition_exposure_record :
    ExposureRecord → ExposureStatus → String → Stamp → ExposureRecord
transition_exposure_record e status public_url t = record e {
  public_url = public_url;
  status = status;
  activated_at = stamp_if (exposure_is_active status) e.activated_at t;
  revoked_at = new_stamp_if (exposure_is_revoked status) e.revoked_at t;
  updated_at = t;
}

unfoldable pub revoke_exposure_record : Stamp → ExposureRecord → ExposureRecord
unfolding transition_exposure_record
revoke_exposure_record t e = transition_exposure_record e ExposureStatus.revoked e.public_url t

-- `issueDomainVerificationChallenge`, with the reading of the clock
unfoldable pub issue_domain_verification_challenge : ℕ → DomainBinding → DomainChallenge
issue_domain_verification_challenge clock b = record {
  domain = b.domain;
  token = b.verification_token;
  issued_at = b.verification_issued_at;
  expires_at = b.verification_expires_at;
  status =
      if domain_is_verified b.status
      then DomainStatus.verified
      else if domain_is_revoked b.status
      then DomainStatus.revoked
      else if is_before (parse_stamp b.verification_expires_at) clock
      then DomainStatus.expired
      else DomainStatus.pending;
}

-- `verifyDomainBinding` of domains.ts
unfoldable pub verify_domain_record : Stamp → DomainBinding → String → Option DomainBinding
verify_domain_record t b token =
    if b.verification_token == token
    then some (record b { status = DomainStatus.verified; verified_at = some t; updated_at = t })
    else none

-- `revokeDomainBinding` of domains.ts
unfoldable pub revoke_domain_record : Stamp → DomainBinding → DomainBinding
revoke_domain_record t b = record b {
  status = DomainStatus.revoked;
  revoked_at = some t;
  updated_at = t;
}

module _ (cloud_domain : String) where
  unfoldable pub build_canonical_target : String → String
  build_canonical_target tool_id = template ("https://" ∷ tool_id ∷ "." ∷ cloud_domain ∷ [])

  abbrev pub public_address_of : AddressKind → String → Option String → String
  public_address_of AddressKind.website subject desired_host =
      with_scheme (trimmed_or desired_host (template (subject ∷ "." ∷ cloud_domain ∷ [])))
  public_address_of AddressKind.email subject desired_host =
      template (subject ∷ "@" ∷ cloud_domain ∷ [])
  public_address_of _ subject desired_host = template ("nexus://" ∷ subject ∷ [])

  unfoldable pub build_public_address : AddressRequest → String
  build_public_address input =
      public_address_of input.kind (normalize_subject input.subject input.tool_id)
        input.desired_host

  -- `createAddressRecord`, with the UUID and the instant it draws
  unfoldable pub create_address_record :
      String → Stamp → AddressRequest → String → AddressStatus → Address
  create_address_record uuid t input public_address status = record {
    id = template ("addr_" ∷ uuid ∷ []);
    tool_id = input.tool_id;
    kind = input.kind;
    subject = normalize_subject input.subject input.tool_id;
    canonical_target = build_canonical_target input.tool_id;
    public_address = public_address;
    desired_host = input.desired_host;
    status = status;
    requested_at = t;
    activated_at = stamp_if (address_is_active status) none t;
    revoked_at = stamp_if (address_is_revoked status) none t;
    updated_at = t;
  }

  unfoldable pub build_public_url : String → Option String → String
  build_public_url tool_id desired_host =
      with_scheme (trimmed_or desired_host (template (tool_id ∷ "." ∷ cloud_domain ∷ [])))

  unfoldable pub build_canonical_url : String → String
  build_canonical_url tool_id = template ("https://" ∷ tool_id ∷ "." ∷ cloud_domain ∷ [])

  -- `createExposureRecord`, with the UUID and the instant it draws
  unfoldable pub create_exposure_record :
      String → Stamp → String → Option String → String → ExposureStatus → ExposureRecord
  create_exposure_record uuid t tool_id desired_host public_url status = record {
    id = template ("exp_" ∷ uuid ∷ []);
    tool_id = tool_id;
    canonical_url = build_canonical_url tool_id;
    public_url = public_url;
    desired_host = desired_host;
    status = status;
    requested_at = t;
    activated_at = stamp_if (exposure_is_active status) none t;
    revoked_at = stamp_if (exposure_is_revoked status) none t;
    updated_at = t;
  }

  -- `createDomainBinding`, with the UUID, the instant and the second reading of the clock
  unfoldable pub create_domain_binding :
      String → Stamp → ℕ → String → String → String → DomainStatus → DomainBinding
  create_domain_binding uuid t clock tool_id domain public_url status = record {
    domain = domain;
    tool_id = tool_id;
    canonical_url = build_canonical_url tool_id;
    public_url = public_url;
    verification_token = build_verification_token uuid domain tool_id;
    verification_issued_at = t;
    verification_expires_at = at (clock + 604800000);
    status = status;
    requested_at = t;
    verified_at = stamp_if (domain_is_verified status) none t;
    revoked_at = stamp_if (domain_is_revoked status) none t;
    updated_at = t;
  }
