-- ===== src/Federation/Service/Authorization.antt =====
-- What authorizing a peer's action and expiring peers come to: src/federation/service.ts.
use nexus_cloud.Base.{
  Bool-cases, length, filter, find, All, ℕ, suc, String, ◌≡◌, refl, ap, inl, inr, Bool, false,
  Option, none, some, List, [], ◌∷◌, map, arith,
}
use nexus_cloud.Federation.Types.{FederationPeer}
use nexus_cloud.Federation.Service.{
  RequiredTrust, federation_peer_unregistered, suffices, normalize_peer_identity_host, answers_to,
  decide, authorize_federated_peer_action, is_due, expire_peers,
}

find-none-All :
    {A : Type 0} (p : A → Bool) (xs : List A) → find p xs ≡ none → All (λ y. p y ≡ false) xs
find-none-All p [] h = tt
find-none-All p (y ∷ ys) h = elim (Bool-cases (p y)) [
  | inl e ↦ let k = rw e at h in absurd (ground arith)
  | inr e ↦ (e, find-none-All p ys (rw e at h))
]

module _ (url_hostname : String → Option String) where
  -- An action is refused for want of a registration only where no peer answers to the upstream's
  -- host, by its trust identity or by its domain.
  authorize_unregistered :
      (required : RequiredTrust) (peers : List FederationPeer) (upstream_url : String)
      → (authorize_federated_peer_action url_hostname required peers upstream_url).reason_code
        ≡ federation_peer_unregistered
      → All
          (λ p.
            answers_to url_hostname (normalize_peer_identity_host url_hostname upstream_url) p
            ≡ false)
          peers
  unfolding authorize_federated_peer_action
  authorize_unregistered required peers upstream_url h =
      let test = answers_to url_hostname (normalize_peer_identity_host url_hostname upstream_url) in
      of test (find test peers) refl h
    where
      of :
          (test : FederationPeer → Bool) (o : Option FederationPeer)
          → find test peers ≡ o
          → (decide url_hostname required o).reason_code ≡ federation_peer_unregistered
          → All (λ p. test p ≡ false) peers
      of test none g h = find-none-All test peers g
      of test (some p) g h = elim (Bool-cases (suffices required p.trust_state)) [
        | inl e ↦ let k = rw e at h in absurd (cc k)
        | inr e ↦ let k = rw e at h in absurd (cc k)
      ]

-- After the expiry loop no peer is due, the count is the number of peers that were, and the peers
-- are the same, in order, by their domains.
expire_peers_settled :
    (now_at : ℕ) (peers : List FederationPeer)
    → All (λ p. is_due now_at p ≡ false) (expire_peers now_at peers).1
      × (length (filter (is_due now_at) peers) ≡ (expire_peers now_at peers).0)
      × (map (λ p. p.domain) (expire_peers now_at peers).1 ≡ map (λ p. p.domain) peers)
unfolding expire_peers
expire_peers_settled now_at [] = (tt, refl, refl)
expire_peers_settled now_at (p ∷ ps) =
    let (settled, count, same) = expire_peers_settled now_at ps in
    elim (Bool-cases (is_due now_at p)) [
      | inl e ↦ rw e ((refl, settled), ap suc count, ap (λ ds. p.domain ∷ ds) same)
      | inr e ↦ rw e ((e, settled), count, ap (λ ds. p.domain ∷ ds) same)
    ]
