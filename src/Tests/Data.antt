-- ===== src/Tests/Data.antt =====
-- Concrete nodes, workloads, peers, tools and settings.
use nexus_cloud.Base.{
  strip_scheme, Env, saved, at, ◌+◌, String, true, Option, none, some, List, [], ◌∷◌,
}
use nexus_cloud.ControlPlane.Types.{
  NodeSpec, NodeStatus, NodeTrustState, WorkloadSpec, WorkloadRuntime,
}
use nexus_cloud.Federation.Types.{FederationPeer, PeerStatus, PeerTrustState}
use nexus_cloud.Observability.Types.{ObservabilityEvent, SignalKind}
use nexus_cloud.Observability.Service.{Platform}
use nexus_cloud.State.Types.{PlatformState, MaintenanceRecord, empty_state}
use nexus_cloud.State.{Store}
use nexus_cloud.SystemsApi.Types.{
  Tool, Mode, ToolExposure, ToolHealth, RegistrationStatus, Address, AddressKind, AddressStatus,
  ExposureRecord, ExposureStatus, DomainBinding, DomainStatus, PublicUrl, PublicUrlStatus,
}
use nexus_cloud.SystemsApi.Catalog.{CatalogState}
use nexus_cloud.SystemsApi.Registry.{Registry, World, Settings}

abbrev pub env : Env
env = record { clock = λ i. 1000 + i; uuid = λ _. "0123456789"; write = λ _. saved }

abbrev pub node : String → NodeTrustState → NodeSpec
node id trust = record {
  id = id;
  name = id;
  region = "eu";
  zone = "a";
  labels = [];
  capacity = record { cpu = 8; memory_mb = 1024; storage_gb = 10; public_ipv4 = none };
  status = NodeStatus.ready;
  trust_state = trust;
  trust_expires_at = some (at 500);
  trust_updated_at = none;
  last_seen_at = none;
}

abbrev pub two_nodes : List NodeSpec
two_nodes = node "n1" NodeTrustState.trusted ∷ node "n2" NodeTrustState.verified ∷ []

abbrev pub workload : WorkloadSpec
workload = record {
  id = "w";
  name = "web";
  image = "nginx";
  replicas = 3;
  cpu_millicores = 100;
  memory_mb = 64;
  env = [];
  ports = [];
  runtime = WorkloadRuntime.container;
  storage = [];
}

abbrev pub peer : String → PeerTrustState → FederationPeer
peer domain trust = record {
  domain = domain;
  did = none;
  trust = record {
    identity = domain;
    issuer = domain;
    audience = "nexus-cloud";
    public_key_hint = "manual";
    signature_scheme = "ed25519";
    expires_at = at 900;
  };
  trust_state = trust;
  trust_updated_at = none;
  trust_expires_at = none;
  status = PeerStatus.blocked;
  last_seen_at = none;
  version = none;
  storage_pools = none;
}

abbrev pub window_record : MaintenanceRecord
window_record = record {
  subject_id = "photos";
  part = "Photos";
  reason = none;
  started_at = at 7;
  expected_end_at = none;
  set_by = "ada";
}

abbrev pub event : ObservabilityEvent
event = record {
  kind = SignalKind.logs;
  subject_id = "n1";
  message = "seen";
  timestamp = at 1;
  level = none;
  source = none;
  metadata = [];
}

abbrev pub state : PlatformState
state = record empty_state {
  nodes = two_nodes;
  peers = peer "https://b.example" PeerTrustState.revoked ∷ [];
  maintenance = window_record ∷ [];
}

abbrev pub store : Store PlatformState
store = record { live = state; file = state }

abbrev pub platform : Platform
platform = record { store = store; audit_log = [] }

-- A URL parser for texts of the form `https://host`.
abbrev pub hostname : String → Option String
hostname text = some (strip_scheme text)

abbrev pub settings : Settings
settings = record {
  cloud_domain = "cloud.test";
  tool_history_limit = 2;
  current_mode = Mode.standalone;
  url_hostname = hostname;
}

abbrev pub tool : Tool
tool = record {
  id = "photos";
  name = "Photos";
  description = "pictures";
  mode = Mode.standalone;
  exposed = true;
  exposure = ToolExposure.public;
  health = ToolHealth.healthy;
  registration_status = RegistrationStatus.active;
  capabilities = [];
  phantom_security_profile = none;
  path = none;
  public_url = none;
  delivery = none;
  upstream_url = some "https://localhost";
  requires_auth = some true;
  last_heartbeat_at = none;
  heartbeat_count = 0;
  registered_at = at 1;
  updated_at = at 1;
}

abbrev pub address : Address
address = record {
  id = "addr_1";
  tool_id = "photos";
  kind = AddressKind.website;
  subject = "photos";
  canonical_target = "https://photos.cloud.test";
  public_address = "https://photos.cloud.test";
  desired_host = none;
  status = AddressStatus.active;
  requested_at = at 1;
  activated_at = some (at 1);
  revoked_at = none;
  updated_at = at 1;
}

abbrev pub exposure : ExposureRecord
exposure = record {
  id = "exp_1";
  tool_id = "photos";
  canonical_url = "https://photos.cloud.test";
  public_url = "https://photos.cloud.test";
  desired_host = none;
  status = ExposureStatus.active;
  requested_at = at 1;
  activated_at = some (at 1);
  revoked_at = none;
  updated_at = at 1;
}

-- A domain that is verified for another tool.
abbrev pub binding : DomainBinding
binding = record {
  domain = "ada.example";
  tool_id = "notes";
  canonical_url = "https://notes.cloud.test";
  public_url = "https://notes.cloud.test";
  verification_token = "secret";
  verification_issued_at = at 1;
  verification_expires_at = at 2;
  status = DomainStatus.verified;
  requested_at = at 1;
  verified_at = some (at 1);
  revoked_at = none;
  updated_at = at 1;
}

abbrev pub url : PublicUrl
url = record {
  tool_id = "photos";
  url = "https://photos.cloud.test";
  status = PublicUrlStatus.active;
  issued_at = at 1;
  expires_at = at 9;
}

abbrev pub catalog : CatalogState
catalog = record {
  proposals = [];
  approved = [];
  seed_version = none;
  reviews = [];
  approval_history = [];
  audit_events = [];
}

abbrev pub registry : Registry
registry = record {
  tools = tool ∷ [];
  public_urls = url ∷ [];
  addresses = address ∷ [];
  history = [];
  exposures = exposure ∷ [];
  domains = binding ∷ [];
  catalog = catalog;
}

abbrev pub world : World
world = record { platform = platform; registry = record { live = registry; file = registry } }
