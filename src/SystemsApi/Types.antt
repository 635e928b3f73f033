-- ===== src/SystemsApi/Types.antt =====
-- Tools, addresses, exposures, domains and routes: src/systems-api/types.ts.
use nexus_cloud.Base.{Stamp, ℕ, String, Bool, Option, List}

pub data Mode : Type 0 where
  standalone orchestrated : Mode

pub data ToolHealth : Type 0 where
  healthy degraded offline : ToolHealth

pub data RegistrationStatus : Type 0 where
  registered active offline : RegistrationStatus

pub data ToolExposure : Type 0 where
  private public pending : ToolExposure

pub data Delivery : Type 0 where
  shell_native proxied_app framed external : Delivery

pub data ProtectionLevel : Type 0 where
  transitional hardened maximum : ProtectionLevel

pub record PhantomGuarantees : Type 0 where
  pub post_quantum : Bool
  pub fhe_transport : Bool
  pub zk_proofs : Bool

pub record PhantomMetadata : Type 0 where
  pub pq_algorithms : Option (List String)
  pub fhe_scheme : Option String
  pub zk_proof_system : Option String
  pub proof_attestation : Option String
  pub proof_endpoint : Option String
  pub last_verified_at : Option String

pub record PhantomProfile : Type 0 where
  pub claimed_secured : Bool
  pub protection_level : ProtectionLevel
  pub guarantees : PhantomGuarantees
  pub metadata : Option PhantomMetadata

pub record Tool : Type 0 where
  pub id : String
  pub name : String
  pub description : String
  pub mode : Mode
  pub exposed : Bool
  pub exposure : ToolExposure
  pub health : ToolHealth
  pub registration_status : RegistrationStatus
  pub capabilities : List String
  pub phantom_security_profile : Option PhantomProfile
  pub path : Option String
  pub public_url : Option String
  pub delivery : Option Delivery
  pub upstream_url : Option String
  pub requires_auth : Option Bool
  pub last_heartbeat_at : Option Stamp
  pub heartbeat_count : ℕ
  pub registered_at : Stamp
  pub updated_at : Stamp

pub data HistoryAction : Type 0 where
  registered updated enabled disabled heartbeat_received : HistoryAction
  public_url_issued public_url_revoked address_issued address_revoked : HistoryAction
  exposure_requested exposure_activated exposure_revoked : HistoryAction
  domain_bound domain_verified domain_revoked : HistoryAction

pub record HistoryEntry : Type 0 where
  pub tool_id : String
  pub action : HistoryAction
  pub summary : String
  pub logged_at : Stamp

pub data ExposureStatus : Type 0 where
  requested active suspended quarantined denied revoked : ExposureStatus

pub record ExposureRecord : Type 0 where
  pub id : String
  pub tool_id : String
  pub canonical_url : String
  pub public_url : String
  pub desired_host : Option String
  pub status : ExposureStatus
  pub requested_at : Stamp
  pub activated_at : Option Stamp
  pub revoked_at : Option Stamp
  pub updated_at : Stamp

pub data PublicUrlStatus : Type 0 where
  active pending revoked : PublicUrlStatus

pub record PublicUrl : Type 0 where
  pub tool_id : String
  pub url : String
  pub status : PublicUrlStatus
  pub issued_at : Stamp
  pub expires_at : Stamp

pub data AddressKind : Type 0 where
  website email server custom : AddressKind

pub data AddressStatus : Type 0 where
  requested active revoked : AddressStatus

pub record Address : Type 0 where
  pub id : String
  pub tool_id : String
  pub kind : AddressKind
  pub subject : String
  pub canonical_target : String
  pub public_address : String
  pub desired_host : Option String
  pub status : AddressStatus
  pub requested_at : Stamp
  pub activated_at : Option Stamp
  pub revoked_at : Option Stamp
  pub updated_at : Stamp

pub data DomainStatus : Type 0 where
  pending verified quarantined denied revoked expired : DomainStatus

pub record DomainBinding : Type 0 where
  pub domain : String
  pub tool_id : String
  pub canonical_url : String
  pub public_url : String
  pub verification_token : String
  pub verification_issued_at : Stamp
  pub verification_expires_at : Stamp
  pub status : DomainStatus
  pub requested_at : Stamp
  pub verified_at : Option Stamp
  pub revoked_at : Option Stamp
  pub updated_at : Stamp

pub data RouteKind : Type 0 where
  website exposure custom_domain server : RouteKind

pub data SecurityTag : Type 0 where
  phantom_hardened transitional : SecurityTag

pub record RouteMaintenance : Type 0 where
  pub part : String
  pub reason : Option String
  pub started_at : Stamp
  pub expected_end_at : Option Stamp

-- A route's `status` is always "active" and is left out.
pub record Route : Type 0 where
  pub domain : String
  pub upstream : String
  pub tool_id : String
  pub kind : RouteKind
  pub security_tag : SecurityTag
  pub phantom_protection_level : ProtectionLevel
  pub requires_auth : Bool
  pub maintenance : Option RouteMaintenance
