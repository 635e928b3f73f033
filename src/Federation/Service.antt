-- ===== src/Federation/Service.antt =====
-- The federation service: src/federation/service.ts. `url_hostname` is `new URL(text).hostname`,
-- none where the constructor throws.
pub mod Authorization
use nexus_cloud.Base.{
  leb, if◌then◌else◌, or_else, filter, find, split, first_piece, trim, lower, strip_scheme,
  parse_stamp, WriteOutcome, Env, Action, at, ok, ℕ, suc, String, Bool, true, false, not, ◌&&◌,
  ◌||◌, Option, none, some, List, [], ◌∷◌, ◌==◌,
}
use mathlib.Core.Option
use nexus_cloud.Federation.Types.{FederationPeer, PeerStatus, PeerTrustState, is_trusted}
use nexus_cloud.Federation.Peers.{TrustInput, upsert_peer}
use nexus_cloud.State.Types.{PlatformState}
use nexus_cloud.State.{Store, mutate_state}

pub data RequiredTrust : Type 0 where
  verified trusted : RequiredTrust

-- The value of NEXUS_CLOUD_FEDERATION_MIN_TRUST, if it is set.
unfoldable pub required_federation_trust_level : Option String → RequiredTrust
unfolding trim lower
required_federation_trust_level setting =
    if lower (trim (or_else setting "trusted")) == "verified"
    then RequiredTrust.verified
    else RequiredTrust.trusted

pub data ReasonCode : Type 0 where
  federation_peer_unregistered federation_peer_trust_insufficient federation_ok : ReasonCode

pub record FederatedActionDecision : Type 0 where
  pub allowed : Bool
  pub reason_code : ReasonCode
  pub required_trust : RequiredTrust
  pub peer_trust_state : Option PeerTrustState

-- The fallback of `normalizePeerIdentityHost`, where the URL does not parse.
abbrev pub bare_host : String → String
bare_host text = lower (first_piece (split b':' (first_piece (split b'/' (strip_scheme text)))))

abbrev pub suffices : RequiredTrust → PeerTrustState → Bool
suffices RequiredTrust.verified PeerTrustState.verified = true
suffices required state = is_trusted state

module _ (url_hostname : String → Option String) where
  unfoldable pub normalize_peer_identity_host : String → String
  normalize_peer_identity_host identity =
      let trimmed = lower (trim identity) in
      if trimmed == ""
      then ""
      else or_else (Option.map lower (url_hostname trimmed)) (bare_host trimmed)

  -- The test of the `find` in `authorizeFederatedPeerAction`.
  unfoldable pub answers_to : String → FederationPeer → Bool
  answers_to host peer =
      normalize_peer_identity_host peer.trust.identity == host || lower peer.domain == host

  abbrev pub decide : RequiredTrust → Option FederationPeer → FederatedActionDecision
  decide required none = record {
    allowed = false;
    reason_code = federation_peer_unregistered;
    required_trust = required;
    peer_trust_state = none;
  }
  decide required (some peer) =
      if suffices required peer.trust_state
      then record {
        allowed = true;
        reason_code = federation_ok;
        required_trust = required;
        peer_trust_state = some peer.trust_state;
      }
      else record {
        allowed = false;
        reason_code = federation_peer_trust_insufficient;
        required_trust = required;
        peer_trust_state = some peer.trust_state;
      }

  unfoldable pub authorize_federated_peer_action :
      RequiredTrust → List FederationPeer → String → FederatedActionDecision
  authorize_federated_peer_action required peers upstream_url =
      decide required (find (answers_to (normalize_peer_identity_host upstream_url)) peers)

unfoldable pub trust_peer :
    Env → Option ℕ → String → Option TrustInput → Action (Store PlatformState) FederationPeer
trust_peer env ttl domain trust = upsert_peer env ttl domain trust none

unfoldable pub list_trusted_peers : List FederationPeer → List FederationPeer
list_trusted_peers peers = filter (λ p. is_trusted p.trust_state) peers

abbrev pub is_final : PeerTrustState → Bool
is_final PeerTrustState.revoked = true
is_final PeerTrustState.expired = true
is_final _ = false

abbrev pub has_passed : ℕ → Option ℕ → Bool
has_passed now_at none = false
has_passed now_at (some ms) = leb ms now_at

-- The `continue`s of the expiry loop; a peer without an expiry of its own has its trust's.
abbrev pub is_due : ℕ → FederationPeer → Bool
is_due now_at peer =
    not (is_final peer.trust_state)
    && has_passed now_at (parse_stamp (or_else peer.trust_expires_at peer.trust.expires_at))

abbrev pub degrade : PeerStatus → PeerStatus
degrade PeerStatus.blocked = PeerStatus.blocked
degrade _ = PeerStatus.degraded

abbrev pub expire : ℕ → FederationPeer → FederationPeer
expire now_at peer = record peer {
  trust_state = PeerTrustState.expired;
  trust_updated_at = some (at now_at);
  status = degrade peer.status;
}

unfoldable pub expire_peers : ℕ → List FederationPeer → ℕ × List FederationPeer
expire_peers now_at [] = (0, [])
expire_peers now_at (peer ∷ peers) =
    let (count, rest) = expire_peers now_at peers in
    if is_due now_at peer then (suc count, expire now_at peer ∷ rest) else (count, peer ∷ rest)

unfoldable pub apply_peer_trust_expiry : WriteOutcome → ℕ → Action (Store PlatformState) ℕ
unfolding expire_peers mutate_state
apply_peer_trust_expiry w now_at =
    mutate_state w (λ s.
      let (count, next) = expire_peers now_at s.peers in (ok count, record s { peers = next }))
