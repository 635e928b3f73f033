-- ===== src/SystemsApi/Registry.antt =====
-- The registry of tools and what they publish: the state of src/systems-api/registry.ts, the helpers
-- that change it, and the Phantom compliance test.
pub mod Tools
pub mod Invariant
pub mod Phantom
pub mod Requests
pub mod Revocation
pub mod Domains
pub mod Routes
pub mod Governance
use mathlib.Core.Option
use nexus_cloud.Base.{
  eqb, if◌then◌else◌, length, filter, find, update_first, upsert, drop, Stamp, WriteOutcome, Result,
  Action, ok, ℕ, ◌-◌, max, String, Bool, true, false, not, ◌&&◌, Option, none, some, List, [], ◌∷◌,
  ◌++◌, ◌==◌,
}
use nexus_cloud.SystemsApi.Catalog.{CatalogState}
use nexus_cloud.SystemsApi.Types.{
  Mode, Tool, ToolExposure, HistoryAction, HistoryEntry, ExposureRecord, PublicUrl, AddressKind,
  Address, DomainBinding, PhantomProfile, PhantomMetadata, ProtectionLevel, SecurityTag,
}
use nexus_cloud.Observability.Service.{Platform}
use nexus_cloud.State.{Store, save_state}

-- What the registry reads from the configuration and the runtime: `cloudConfig.cloudDomain`,
-- NEXUS_CLOUD_TOOL_HISTORY_LIMIT, SYSTEMS_API_MODE, and the hostname of the URL parser.
pub record Settings : Type 0 where
  pub cloud_domain : String
  pub tool_history_limit : ℕ
  pub current_mode : Mode
  pub url_hostname : String → Option String

-- `SystemsApiRegistryData`
pub record Registry : Type 0 where
  pub tools : List Tool
  pub public_urls : List PublicUrl
  pub addresses : List Address
  pub history : List HistoryEntry
  pub exposures : List ExposureRecord
  pub domains : List DomainBinding
  pub catalog : CatalogState

-- The registry and its file, beside the platform state.
pub record World : Type 0 where
  pub platform : Platform
  pub registry : Store Registry

abbrev pub in_world {ℓ} : {A : Type ℓ} → World → Result A × Platform → Result A × World
in_world w (r, p) = (r, record w { platform = p })

abbrev pub on_platform {ℓ} :
    {A : Type ℓ} → (Platform → Result A × Platform) → World → Result A × World
on_platform m w = in_world w (m w.platform)

abbrev pub change_registry : (Registry → Registry) → Action World (Unit {0})
change_registry f w =
    (ok tt, record w { registry = record w.registry { live = f w.registry.live } })

abbrev pub in_registry : World → Result (Unit {0}) × Store Registry → Result (Unit {0}) × World
in_registry w (r, s) = (r, record w { registry = s })

-- `persist`: the registry is written out as it stands; a failure leaves it changed in memory.
unfoldable pub persist : WriteOutcome → Action World (Unit {0})
unfolding save_state
persist o w = in_registry w (save_state o w.registry)

abbrev pub lift : {A : Type 0} → Result A → Action World A
lift r w = (r, w)

abbrev pub has_id : String → Tool → Bool
has_id tool_id tool = tool.id == tool_id

unfoldable pub get_tool : String → Registry → Option Tool
get_tool tool_id r = find (has_id tool_id) r.tools

unfoldable pub get_public_url : String → Registry → Option PublicUrl
get_public_url tool_id r = find (λ item. item.tool_id == tool_id) r.public_urls

unfoldable pub get_exposure : String → Registry → Option ExposureRecord
get_exposure tool_id r = find (λ item. item.tool_id == tool_id) r.exposures

unfoldable pub get_domain_binding : String → Registry → Option DomainBinding
get_domain_binding domain r = find (λ item. item.domain == domain) r.domains

unfoldable pub list_tool_history : String → Registry → List HistoryEntry
list_tool_history tool_id r = filter (λ entry. entry.tool_id == tool_id) r.history

-- `exposureFromFlag`
abbrev pub exposure_from_flag : Bool → ToolExposure
exposure_from_flag true = ToolExposure.public
exposure_from_flag false = ToolExposure.private

-- HISTORY_LIMIT
abbrev pub history_limit : Settings → ℕ
history_limit settings = max 1 settings.tool_history_limit

unfoldable pub trim_history : ℕ → List HistoryEntry → List HistoryEntry
trim_history limit history = drop (length history - limit) history

unfoldable pub push_history :
    Settings → String → HistoryAction → String → Stamp → Registry → Registry
unfolding trim_history
push_history settings tool_id action summary t r = record r {
  history = trim_history (history_limit settings) (
      r.history
      ++ record { tool_id = tool_id; action = action; summary = summary; logged_at = t } ∷ []);
}

-- `updateToolRecord`: the first tool of the id is replaced.
unfoldable pub update_tool_record : String → (Tool → Tool) → Registry → Registry
update_tool_record tool_id updater r = record r {
  tools = update_first (has_id tool_id) updater r.tools;
}

unfoldable pub upsert_tool_record : Tool → Registry → Registry
upsert_tool_record tool r = record r { tools = upsert (has_id tool.id) tool r.tools }

unfoldable pub upsert_exposure_record : ExposureRecord → Registry → Registry
upsert_exposure_record e r = record r {
  exposures = upsert (λ item. item.tool_id == e.tool_id) e r.exposures;
}

unfoldable pub upsert_public_url_record : PublicUrl → Registry → Registry
upsert_public_url_record u r = record r {
  public_urls = upsert (λ item. item.tool_id == u.tool_id) u r.public_urls;
}

abbrev pub same_kind : AddressKind → AddressKind → Bool
same_kind AddressKind.website AddressKind.website = true
same_kind AddressKind.email AddressKind.email = true
same_kind AddressKind.server AddressKind.server = true
same_kind AddressKind.custom AddressKind.custom = true
same_kind _ _ = false

abbrev pub same_address : Address → Address → Bool
same_address a item =
    item.tool_id == a.tool_id && same_kind item.kind a.kind && item.subject == a.subject

unfoldable pub upsert_address_record : Address → Registry → Registry
upsert_address_record a r = record r { addresses = upsert (same_address a) a r.addresses }

unfoldable pub upsert_domain_record : DomainBinding → Registry → Registry
upsert_domain_record b r = record r {
  domains = upsert (λ item. item.domain == b.domain) b r.domains;
}

abbrev pub phantom_protection_level : Option PhantomProfile → ProtectionLevel
phantom_protection_level none = ProtectionLevel.transitional
phantom_protection_level (some profile) = profile.protection_level

abbrev pub failure_if : Bool → String → List String
failure_if true message = message ∷ []
failure_if false message = []

-- `!text` of a text that may be undefined
abbrev pub is_blank : Option String → Bool
is_blank none = true
is_blank (some s) = s == ""

abbrev pub is_empty : Option (List String) → Bool
is_empty none = true
is_empty (some []) = true
is_empty (some (x ∷ xs)) = false

abbrev pub metadata_failures : Option PhantomMetadata → List String
metadata_failures none =
    "missing pqAlgorithms metadata" ∷ "missing fheScheme metadata"
    ∷ "missing zkProofSystem metadata" ∷ "missing proofAttestation metadata"
    ∷ "missing proofEndpoint metadata" ∷ []
metadata_failures (some m) =
    failure_if (is_empty m.pq_algorithms) "missing pqAlgorithms metadata"
    ++ failure_if (is_blank m.fhe_scheme) "missing fheScheme metadata"
    ++ failure_if (is_blank m.zk_proof_system) "missing zkProofSystem metadata"
    ++ failure_if (is_blank m.proof_attestation) "missing proofAttestation metadata"
    ++ failure_if (is_blank m.proof_endpoint) "missing proofEndpoint metadata"

unfoldable pub evaluate_phantom_compliance : PhantomProfile → List String
evaluate_phantom_compliance profile =
    if not profile.claimed_secured
    then []
    else failure_if (not profile.guarantees.post_quantum) "missing post-quantum guarantee"
      ++ failure_if (not profile.guarantees.fhe_transport) "missing FHE transport guarantee"
      ++ failure_if (not profile.guarantees.zk_proofs) "missing zk proof guarantee"
      ++ metadata_failures profile.metadata

unfoldable pub phantom_security_tag : Option PhantomProfile → SecurityTag
unfolding evaluate_phantom_compliance
phantom_security_tag none = SecurityTag.transitional
phantom_security_tag (some profile) =
    if not profile.claimed_secured
    then SecurityTag.transitional
    else if eqb (length (evaluate_phantom_compliance profile)) 0
    then SecurityTag.phantom_hardened
    else SecurityTag.transitional
