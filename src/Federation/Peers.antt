-- ===== src/Federation/Peers.antt =====
-- Peers and their trust: src/federation/peers.ts. `ttl` is what `Number` makes of
-- NEXUS_CLOUD_PEER_TRUST_TTL_HOURS, none where that is not finite.
use nexus_cloud.Base.{
  if◌then◌else◌, upsert, take_chars, Env, now, Action, at, ok, ℕ, ◌+◌, ◌*◌, max, String, Bool, true,
  false, ◌&&◌, Option, none, some, ◌==◌,
}
use nexus_cloud.Federation.Types.{FederationPeer, FederationTrust, PeerStatus, PeerTrustState}
use nexus_cloud.State.Types.{PlatformState}
use nexus_cloud.State.{Store, mutate_state}

-- A field of an object of unknown shape: `in` is false, a string, or anything else.
pub data Field : Type 0 where
  absent : Field
  text : String → Field
  other : Field

-- What `upsertPeer` reads of the trust that it is given.
pub record TrustInput : Type 0 where
  pub key_id : Field
  pub signature : Field

unfoldable pub read_string : Field → String → String
read_string (text s) fallback = if s == "" then fallback else s
read_string _ fallback = fallback

abbrev pub key_id_field : Option TrustInput → Field
key_id_field none = absent
key_id_field (some trust) = trust.key_id

abbrev pub signature_field : Option TrustInput → Field
signature_field none = absent
signature_field (some trust) = trust.signature

abbrev pub is_present : Field → Bool
is_present absent = false
is_present _ = true

unfoldable pub create_peer_trust : Env → String → Option TrustInput → FederationTrust
unfolding read_string take_chars
create_peer_trust env domain trust = record {
  identity = domain;
  issuer = read_string (key_id_field trust) domain;
  audience = "nexus-cloud";
  public_key_hint = take_chars 16 (read_string (signature_field trust) "manual");
  signature_scheme = "ed25519";
  expires_at = at (env.clock 1 + 1000 * 60 * 60 * 24 * 30);
}

abbrev pub has_signed_trust : Option TrustInput → Bool
has_signed_trust trust = is_present (signature_field trust) && is_present (key_id_field trust)

abbrev pub peer_trust_ttl_hours : Option ℕ → ℕ
peer_trust_ttl_hours none = 168
peer_trust_ttl_hours (some raw) = max 1 raw

-- `did ? { did } : {}`
abbrev pub non_empty : Option String → Option String
non_empty none = none
non_empty (some s) = if s == "" then none else some s

unfoldable pub new_peer :
    Env → Option ℕ → String → Option TrustInput → Option String → FederationPeer
unfolding create_peer_trust
new_peer env ttl domain trust did = record {
  domain = domain;
  did = non_empty did;
  trust = create_peer_trust env domain trust;
  trust_state = if has_signed_trust trust then PeerTrustState.trusted else PeerTrustState.pending;
  trust_updated_at = some (now env 0);
  trust_expires_at = some (at (env.clock 2 + peer_trust_ttl_hours ttl * 60 * 60 * 1000));
  status = if has_signed_trust trust then PeerStatus.healthy else PeerStatus.unknown;
  last_seen_at = some (now env 0);
  version = some "0.1.0";
  storage_pools = none;
}

-- The mutator of `upsertPeer`.
abbrev pub put_peer : FederationPeer → Action PlatformState FederationPeer
put_peer peer s =
    (ok peer, record s { peers = upsert (λ item. item.domain == peer.domain) peer s.peers })

unfoldable pub upsert_peer :
    Env
    → Option ℕ
    → String
    → Option TrustInput
    → Option String
    → Action (Store PlatformState) FederationPeer
upsert_peer env ttl domain trust did =
    mutate_state (env.write 0) (put_peer (new_peer env ttl domain trust did))
