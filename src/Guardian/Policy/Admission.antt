-- ===== src/Guardian/Policy/Admission.antt =====
-- What an approval guarantees, and that nothing else is approved.
use nexus_cloud.Base.{
  Bool-cases, or_else, any, Any, String, ◌≡◌, refl, ◌≢◌, ◌⊎◌, inl, inr, true, false, ◌&&◌, Option,
  none, some, List, [], ◌∷◌, arith, ◌==◌, eq_iff,
}
use nexus_cloud.Federation.Types.{FederationPeer, PeerTrustState}
use nexus_cloud.State.Types.{GuardianScope, approved}
use nexus_cloud.SystemsApi.Types.{Tool, ToolHealth}
use nexus_cloud.Guardian.Policy.{
  is_offline_registration, is_local_or_private_host, is_bad_public_host, is_public_scope, trimmed,
  extract_hostname, vouches_for, has_trusted_peer_for_host, evaluate_health, evaluate_host,
  evaluate_guardian_request,
}

module _ (url_hostname : String → Option String) where
  -- The upstream host is on the local network, or a trusted federation peer answers for it.
  abbrev pub IsVouched : List FederationPeer → String → Type 0
  IsVouched peers host =
      (is_local_or_private_host host ≡ true)
      ⊎ Any
          (λ (peer : FederationPeer).
            (peer.trust_state ≡ PeerTrustState.trusted)
            × (vouches_for url_hostname host peer ≡ true))
          peers

  vouched_by :
      (peers : List FederationPeer) (host : String)
      → any (vouches_for url_hostname host) peers ≡ true
      → Any
          (λ (peer : FederationPeer).
            (peer.trust_state ≡ PeerTrustState.trusted)
            × (vouches_for url_hostname host peer ≡ true))
          peers
  vouched_by [] host h = cc
  vouched_by (peer ∷ peers) host h = elim (Bool-cases (vouches_for url_hostname host peer)) [
    | inl e ↦ inl ((unfold vouches_for in ground arith), e)
    | inr e ↦ inr (vouched_by peers host (rw e at h))
  ]

  -- What the tests on health and desired host let through.
  abbrev pub IsSound : ToolHealth → Option String → Type 0
  IsSound health desired_host =
      (health ≡ ToolHealth.healthy)
      × ((or_else desired_host "" ≡ "") ⊎ (is_bad_public_host (or_else desired_host "") ≡ false))

  evaluate_health_approved :
      (health : ToolHealth) (desired_host : Option String)
      → (evaluate_health url_hostname health desired_host).status ≡ approved
      → IsSound health desired_host
  unfolding evaluate_health
  evaluate_health_approved ToolHealth.offline d h = absurd (ground arith)
  evaluate_health_approved ToolHealth.degraded d h = absurd (ground arith)
  evaluate_health_approved ToolHealth.healthy d h = elim (Bool-cases (or_else d "" == "")) [
    | inl e ↦ (refl, inl ((eq_iff (or_else d "") "").0 e))
    | inr e ↦ (refl, inr (ground arith))
  ]

  evaluate_host_approved :
      (peers : List FederationPeer) (t : Tool) (desired_host : Option String) (url : String)
      (found : Option String)
      → (evaluate_host url_hostname peers t desired_host url found).status ≡ approved
      → (host : String) × (found ≡ some host) × IsVouched peers host × IsSound t.health desired_host
  unfolding evaluate_host has_trusted_peer_for_host
  evaluate_host_approved peers t d url none h = absurd (ground arith)
  evaluate_host_approved peers t d url (some host) h =
      let sound = evaluate_health_approved t.health d (ground arith) in
      elim (Bool-cases (is_local_or_private_host host)) [
        | inl e ↦ (host, refl, inl e, sound)
        | inr e ↦ (host, refl, inr (vouched_by peers host (ground arith)), sound)
      ]

  -- A request is approved only for a tool that exists, is healthy, has a non-blank upstream URL
  -- with a host that is local, private or answered for by a trusted peer, and, where something is
  -- to be made public, has not gone offline; and only for a desired host that is not a localhost
  -- name and has no blanks, if one is given.
  pub evaluate_approved :
      (peers : List FederationPeer) (scope : GuardianScope) (tool : Option Tool)
      (desired_host : Option String)
      → (evaluate_guardian_request url_hostname peers scope tool desired_host).status ≡ approved
      → (t : Tool) × (host : String) × (tool ≡ some t)
        × (trimmed t.upstream_url ≢ "")
        × (extract_hostname url_hostname (or_else t.upstream_url "") ≡ some host)
        × IsVouched peers host
        × (is_public_scope scope && is_offline_registration t.registration_status ≡ false)
        × IsSound t.health desired_host
  unfolding evaluate_guardian_request
  evaluate_approved peers scope none desired_host h = absurd (ground arith)
  evaluate_approved peers scope (some t) desired_host h =
      let url = or_else t.upstream_url "" in
      let (host, found, vouched, sound) =
        evaluate_host_approved peers t desired_host url (extract_hostname url_hostname url)
          (ground arith) in
      (
        t,
        host,
        refl,
        (λ e. let q = (eq_iff (trimmed t.upstream_url) "").1 e in ground arith),
        found,
        vouched,
        ground arith,
        sound,
      )
