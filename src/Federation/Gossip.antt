-- ===== src/Federation/Gossip.antt =====
-- Announcements between nodes: src/federation/gossip.ts. `self_did` is getNodeIdentity().did, and
-- `ttl` as in Peers. What an outbound contact is answered is an argument.
pub mod Escalation
use nexus_cloud.Base.{
  if◌then◌else◌, opt_is, update_first, split, third_piece, drop_chars, take_chars, Stamp,
  WriteOutcome, Env, later, now, Action, pure, gets, ◌>>=◌, ok, ℕ, String, Bool, true, false, not,
  ◌&&◌, Option, none, some, List, [], ◌∷◌, ◌==◌,
}
use nexus_cloud.Federation.Types.{
  FederationPeer, PeerTrustState, PeerStatus, SharedStoragePoolSummary,
}
use nexus_cloud.Federation.Peers.{upsert_peer}
use nexus_cloud.State.Types.{PlatformState}
use nexus_cloud.State.{Store, mutate_state}

pub record GossipAnnouncement : Type 0 where
  pub did : String
  pub short_id : String
  pub upstream_url : String
  pub storage_pools : Option (List SharedStoragePoolSummary)

-- `ann.did && ann.upstreamUrl && ann.did !== selfDid`
abbrev pub is_foreign : String → GossipAnnouncement → Bool
is_foreign self_did ann =
    not (ann.did == "") && not (ann.upstream_url == "") && not (ann.did == self_did)

-- The first peer with the DID gets the announced pools.
abbrev pub attach_pools : String → List SharedStoragePoolSummary → Action PlatformState (Unit {0})
attach_pools did pools s = (
  ok tt,
  record s {
    peers =
        update_first (λ p. opt_is p.did did) (λ p. record p { storage_pools = some pools }) s.peers;
  },
)

unfoldable pub store_pools :
    WriteOutcome
    → String
    → Option (List SharedStoragePoolSummary)
    → Action (Store PlatformState) (Unit {0})
unfolding mutate_state
store_pools w did none = pure tt
store_pools w did (some []) = pure tt
store_pools w did (some (pool ∷ pools)) = mutate_state w (attach_pools did (pool ∷ pools))

-- `did.split(":")[2]?.slice(1, 9) ?? ""`
abbrev pub short_id_of : String → String
short_id_of did = take_chars 8 (drop_chars 1 (third_piece (split b':' did)))

-- The peers that an answer lists: those with a DID other than our own and an identity.
abbrev pub known_peer : String → Bool → FederationPeer → Option GossipAnnouncement
known_peer self_did with_pools peer = elim (peer.did) [
  | none ↦ none
  | some did ↦
      if not (did == "") && not (peer.trust.identity == "") && not (did == self_did)
      then some (record {
        did = did;
        short_id = short_id_of did;
        upstream_url = peer.trust.identity;
        storage_pools = if with_pools then peer.storage_pools else none;
      })
      else none
]

unfoldable pub known_peers : String → Bool → List FederationPeer → List GossipAnnouncement
known_peers self_did with_pools [] = []
known_peers self_did with_pools (peer ∷ peers) =
    let rest = known_peers self_did with_pools peers in
    elim (known_peer self_did with_pools peer) [ none ↦ rest | some ann ↦ ann ∷ rest ]

unfoldable pub accept_announcement :
    Env → Option ℕ → Bool → GossipAnnouncement → Action (Store PlatformState) (Unit {0})
accept_announcement env ttl false ann = pure tt
accept_announcement env ttl true ann = do
  peer ← upsert_peer env ttl ann.upstream_url none (some ann.did)
  store_pools (env.write 1) ann.did ann.storage_pools

unfoldable pub handle_inbound_announcement :
    Env
    → Option ℕ
    → String
    → GossipAnnouncement
    → Action (Store PlatformState) (List GossipAnnouncement)
handle_inbound_announcement env ttl self_did ann = do
  accepted ← accept_announcement env ttl (is_foreign self_did ann) ann
  gets (λ s. known_peers self_did true s.live.peers)

-- `if (peer && peer.trustState === "pending") …`, on the first peer with the identity.
abbrev pub verify_pending : Stamp → FederationPeer → FederationPeer
verify_pending t peer = elim (peer.trust_state) [
  | PeerTrustState.pending ↦ record peer {
    trust_state = PeerTrustState.verified;
    status = PeerStatus.healthy;
    trust_updated_at = some t;
  }
  | _ ↦ peer
]

abbrev pub verify_bootstrap : Stamp → String → Action PlatformState (Unit {0})
verify_bootstrap t upstream_url s = (
  ok tt,
  record s {
    peers = update_first (λ p. p.trust.identity == upstream_url) (verify_pending t) s.peers;
  },
)

unfoldable pub accept_bootstrap :
    Env → Option ℕ → Bool → GossipAnnouncement → Action (Store PlatformState) (Unit {0})
accept_bootstrap env ttl false ann = pure tt
accept_bootstrap env ttl true ann = do
  peer ← upsert_peer env ttl ann.upstream_url none (some ann.did)
  mutate_state (env.write 1) (verify_bootstrap (now env 3) ann.upstream_url)

unfoldable pub handle_inbound_bootstrap_announcement :
    Env
    → Option ℕ
    → String
    → GossipAnnouncement
    → Action (Store PlatformState) (List GossipAnnouncement)
handle_inbound_bootstrap_announcement env ttl self_did ann = do
  accepted ← accept_bootstrap env ttl (is_foreign self_did ann) ann
  gets (λ s. known_peers self_did false s.live.peers)

-- The loop of `contactPeer` over the peers of an answer. A write that throws ends it, and the
-- error is swallowed: the state reached so far stays.
unfoldable pub merge_peers :
    Env → Option ℕ → String → List GossipAnnouncement → Action (Store PlatformState) (Unit {0})
merge_peers env ttl self_did [] = pure tt
merge_peers env ttl self_did (ann ∷ anns) =
    let rest = merge_peers (later 3 env) ttl self_did anns in
    if is_foreign self_did ann
    then (upsert_peer env ttl ann.upstream_url none (some ann.did) >>= λ _. rest)
    else rest

-- An unreachable peer, or an answer that is not ok, is `none`.
unfoldable pub contact_peer :
    Env
    → Option ℕ
    → String
    → Option (List GossipAnnouncement)
    → Store PlatformState
    → Store PlatformState
contact_peer env ttl self_did none s = s
contact_peer env ttl self_did (some anns) s = (merge_peers env ttl self_did anns s).1
