-- ===== src/Federation/Gossip/Escalation.antt =====
-- What an announcement does to the trust of a peer that is known already.
use mathlib.Core.Option
use nexus_cloud.Base.{
  Bool-cases, opt_is, str-eq_self, find, update_first, upsert, All, All-upsert, find-upsert_self,
  Stamp, WriteOutcome, Env, now, Result, Action, gets, proceed, ◌>>=◌, saved, ok, thrown, ℕ, String,
  ◌≡◌, refl, ap, ◌∙◌, inl, inr, true, false, Option, none, some, List, [], ◌∷◌, ◌==◌,
}
use nexus_cloud.Federation.Types.{FederationPeer, PeerTrustState, SharedStoragePoolSummary}
use nexus_cloud.Federation.Peers.{new_peer, upsert_peer, create_peer_trust}
use nexus_cloud.Federation.Gossip.{
  GossipAnnouncement, is_foreign, handle_inbound_announcement, accept_announcement, store_pools,
  handle_inbound_bootstrap_announcement, accept_bootstrap, verify_bootstrap, verify_pending,
  known_peers,
}
use nexus_cloud.State.Types.{PlatformState}
use nexus_cloud.State.{Store, mutate_state, save_state}

abbrev pub peer_at : String → Store PlatformState → Option FederationPeer
peer_at domain s = find (λ p. p.domain == domain) s.live.peers

-- The trust state of the peer with a domain, if there is one.
abbrev pub trust_at : String → Store PlatformState → Option PeerTrustState
trust_at domain s = Option.map (λ p. p.trust_state) (peer_at domain s)

abbrev pub WritesSucceed : Env → Type 0
WritesSucceed env = (i : ℕ) → env.write i ≡ saved

-- Attaching pools changes no peer's domain or trust.
trust-attach_pools :
    (domain did : String) (peers : List FederationPeer) (pools : List SharedStoragePoolSummary)
    → Option.map
        (λ (p : FederationPeer). p.trust_state)
        (find
          (λ p. p.domain == domain)
          (update_first
            (λ p. opt_is p.did did)
            (λ p. record p { storage_pools = some pools })
            peers))
      ≡ Option.map (λ (p : FederationPeer). p.trust_state) (find (λ p. p.domain == domain) peers)
trust-attach_pools domain did [] pools = refl
trust-attach_pools domain did (p ∷ ps) pools = elim (Bool-cases (opt_is p.did did)) [
  | inl e ↦ rw e (elim (Bool-cases (p.domain == domain)) [ inl k ↦ rw k refl | inr k ↦ rw k refl ])
  | inr e ↦ rw e (elim (Bool-cases (p.domain == domain)) [
    | inl k ↦ rw k refl
    | inr k ↦ rw k (trust-attach_pools domain did ps pools)
  ])
]

-- The state after an upsert whose write succeeds.
abbrev with_peer : FederationPeer → Store PlatformState → Store PlatformState
with_peer peer s =
    let next = record s.live {
      peers = upsert (λ item. item.domain == peer.domain) peer s.live.peers;
    } in
    record s { live = next; file = next }

upsert_peer-saved :
    (env : Env) (ttl : Option ℕ) (domain : String) (did : Option String) (s : Store PlatformState)
    → env.write 0 ≡ saved
    → upsert_peer env ttl domain none did s
      ≡ (ok (new_peer env ttl domain none did), with_peer (new_peer env ttl domain none did) s)
unfolding upsert_peer mutate_state save_state new_peer
upsert_peer-saved env ttl domain did s w = rw w refl

store_pools-trust :
    (o : WriteOutcome) (did : String) (pools : Option (List SharedStoragePoolSummary))
    (domain : String) (s : Store PlatformState)
    → o ≡ saved
    → trust_at domain (store_pools o did pools s).1 ≡ trust_at domain s
unfolding store_pools mutate_state save_state
store_pools-trust o did none domain s w = refl
store_pools-trust o did (some []) domain s w = refl
store_pools-trust o did (some (p ∷ ps)) domain s w =
    rw w (trust-attach_pools domain did s.live.peers (p ∷ ps))

-- Reading the answer off the state leaves it as it is.
bind-gets-state :
    {A B : Type 0} (m : Action (Store PlatformState) A) (f : Store PlatformState → B)
    (s : Store PlatformState)
    → ((m >>= λ _. gets f) s).1 ≡ (m s).1
unfolding ◌>>=◌
bind-gets-state {A} m f s = of (m s)
  where
    of : (r : Result A × Store PlatformState) → (proceed r (λ _. gets f)).1 ≡ r.1
    of (ok a, t) = refl
    of (thrown e, t) = refl

-- A bind after a computation whose outcome is known.
bind-after :
    {A B : Type 0} (m : Action (Store PlatformState) A) (f : A → Action (Store PlatformState) B)
    (s t : Store PlatformState) (a : A)
    → m s ≡ (ok a, t)
    → (m >>= f) s ≡ f a t
unfolding ◌>>=◌
bind-after m f s t a h = rw h refl

-- The peer that an upsert makes is found under its domain, pending where no signature came with it.
trust-with_peer :
    (env : Env) (ttl : Option ℕ) (domain : String) (did : Option String) (s : Store PlatformState)
    → peer_at domain (with_peer (new_peer env ttl domain none did) s)
      ≡ some (new_peer env ttl domain none did)
unfolding new_peer
trust-with_peer env ttl domain did s =
    find-upsert_self (λ p. p.domain == domain) (new_peer env ttl domain none did) s.live.peers
      (str-eq_self domain)

-- An announcement from another node resets the trust of its URL's peer to pending, whatever that
-- peer was before, where both writes of the state succeed: an announcement that names a trusted
-- peer's URL demotes it, and one that names a revoked or quarantined peer's URL clears the sanction.
pub announcement_resets_trust :
    (env : Env) (ttl : Option ℕ) (self_did : String) (ann : GossipAnnouncement)
    (s : Store PlatformState)
    → WritesSucceed env
    → is_foreign self_did ann ≡ true
    → trust_at ann.upstream_url (handle_inbound_announcement env ttl self_did ann s).1
      ≡ some PeerTrustState.pending
unfolding handle_inbound_announcement accept_announcement new_peer
announcement_resets_trust env ttl self_did ann s w f =
    let url = ann.upstream_url in
    let peer = new_peer env ttl url none (some ann.did) in
    let pools = store_pools (env.write 1) ann.did ann.storage_pools in
    let m = accept_announcement env ttl (is_foreign self_did ann) ann in
    let accepted : m s ≡ pools (with_peer peer s) = rw f (
      bind-after (upsert_peer env ttl url none (some ann.did)) (λ _. pools) s (with_peer peer s)
        peer (upsert_peer-saved env ttl url (some ann.did) s (w 0))) in
    ap (trust_at url) (bind-gets-state m (λ t. known_peers self_did true t.live.peers) s)
    ∙ (ap (λ r. trust_at url r.1) accepted
        ∙ (store_pools-trust (env.write 1) ann.did ann.storage_pools url (with_peer peer s) (w 1)
            ∙ ap (Option.map (λ (p : FederationPeer). p.trust_state))
                (trust-with_peer env ttl url (some ann.did) s)))

-- Where peers are known by their domains, an update by identity is one by domain.
find-update_identity :
    (url : String) (f : FederationPeer → FederationPeer) (peers : List FederationPeer)
    → ((p : FederationPeer) → (f p).domain ≡ p.domain)
    → All (λ p. p.trust.identity ≡ p.domain) peers
    → find (λ p. p.domain == url) (update_first (λ p. p.trust.identity == url) f peers)
      ≡ Option.map f (find (λ p. p.domain == url) peers)
find-update_identity url f [] k h = refl
find-update_identity url f (p ∷ rest) k h = elim (Bool-cases (p.domain == url)) [
  | inl e ↦
      let i = ap (λ d. d == url) h.0 ∙ e in
      let j = ap (λ d. d == url) (k p) ∙ e in rw (i, e, j) refl
  | inr e ↦ let i = ap (λ d. d == url) h.0 ∙ e in rw (i, e) (find-update_identity url f rest k h.1)
]

verify_pending-domain : (t : Stamp) (p : FederationPeer) → (verify_pending t p).domain ≡ p.domain
verify_pending-domain t p = of p.trust_state refl
  where
    of : (x : PeerTrustState) → p.trust_state ≡ x → (verify_pending t p).domain ≡ p.domain
    of PeerTrustState.pending e = rw e refl
    of PeerTrustState.verified e = rw e refl
    of PeerTrustState.trusted e = rw e refl
    of PeerTrustState.quarantined e = rw e refl
    of PeerTrustState.revoked e = rw e refl
    of PeerTrustState.expired e = rw e refl

verify_bootstrap-trust :
    (o : WriteOutcome) (t : Stamp) (url : String) (s : Store PlatformState) (peer : FederationPeer)
    → o ≡ saved
    → All (λ p. p.trust.identity ≡ p.domain) s.live.peers
    → peer_at url s ≡ some peer
    → peer_at url (mutate_state o (verify_bootstrap t url) s).1 ≡ some (verify_pending t peer)
unfolding mutate_state save_state
verify_bootstrap-trust o t url s peer w h g = rw w (
    find-update_identity url (verify_pending t) s.live.peers (verify_pending-domain t) h
    ∙ ap (Option.map (verify_pending t)) g)

-- An announcement taken as a bootstrap announcement leaves the peer of its URL verified, also one
-- that an operator has quarantined or revoked, where both writes of the state succeed and every
-- peer's identity is its domain: the guard that verifies pending peers alone comes after the upsert
-- that has made the peer pending.
pub bootstrap_lifts_sanctions :
    (env : Env) (ttl : Option ℕ) (self_did : String) (ann : GossipAnnouncement)
    (s : Store PlatformState)
    → WritesSucceed env
    → is_foreign self_did ann ≡ true
    → All (λ p. p.trust.identity ≡ p.domain) s.live.peers
    → trust_at ann.upstream_url (handle_inbound_bootstrap_announcement env ttl self_did ann s).1
      ≡ some PeerTrustState.verified
unfolding handle_inbound_bootstrap_announcement accept_bootstrap new_peer create_peer_trust
bootstrap_lifts_sanctions env ttl self_did ann s w f same =
    let url = ann.upstream_url in
    let peer = new_peer env ttl url none (some ann.did) in
    let verify = mutate_state (env.write 1) (verify_bootstrap (now env 3) url) in
    let m = accept_bootstrap env ttl (is_foreign self_did ann) ann in
    let accepted : m s ≡ verify (with_peer peer s) = rw f (
      bind-after (upsert_peer env ttl url none (some ann.did)) (λ _. verify) s (with_peer peer s)
        peer (upsert_peer-saved env ttl url (some ann.did) s (w 0))) in
    ap (trust_at url) (bind-gets-state m (λ t. known_peers self_did false t.live.peers) s)
    ∙ (ap (λ r. trust_at url r.1) accepted
        ∙ ap (Option.map (λ (p : FederationPeer). p.trust_state)) (
            verify_bootstrap-trust (env.write 1) (now env 3) url (with_peer peer s) peer (w 1)
              (All-upsert (λ p. p.trust.identity ≡ p.domain) (λ item. item.domain == url) peer
                s.live.peers refl same)
              (trust-with_peer env ttl url (some ann.did) s)))
