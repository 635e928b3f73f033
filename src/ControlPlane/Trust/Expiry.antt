-- ===== src/ControlPlane/Trust/Expiry.antt =====
-- The expiry sweep: what it changes, and that it leaves nothing due.
use nexus_cloud.Base.{
  if◌then◌else◌, Bool-cases, length, filter, All, ℕ, ◌≤◌, ◌≡◌, refl, inl, inr, false, List, [], ◌∷◌,
  map, arith,
}
use nexus_cloud.ControlPlane.Types.{NodeSpec}
use nexus_cloud.ControlPlane.Trust.{is_due, expire, expire_nodes}

-- What one node becomes in a sweep at an instant.
abbrev pub swept : ℕ → NodeSpec → NodeSpec
swept now_at node = if is_due now_at node then expire now_at node else node

-- The sweep expires exactly the nodes that are due, in place, and returns their number.
expire_nodes-swept :
    (now_at : ℕ) (nodes : List NodeSpec)
    → expire_nodes now_at nodes ≡ (length (filter (is_due now_at) nodes), map (swept now_at) nodes)
unfolding expire_nodes
expire_nodes-swept now_at [] = refl
expire_nodes-swept now_at (node ∷ nodes) = elim (Bool-cases (is_due now_at node)) [
  | inl e ↦ rw (e, expire_nodes-swept now_at nodes)
  | inr e ↦ rw (e, expire_nodes-swept now_at nodes)
]

is_due-earlier :
    (now_at earlier : ℕ) (node : NodeSpec)
    → earlier ≤ now_at
    → is_due now_at node ≡ false
    → is_due earlier node ≡ false
is_due-earlier now_at earlier node h e = ground arith

-- After a sweep at an instant no node is due at any instant up to it: every node whose readable
-- expiry has passed is expired or was revoked, and a second sweep changes nothing and returns 0.
pub expire_nodes_settled :
    (now_at earlier : ℕ) (nodes : List NodeSpec)
    → earlier ≤ now_at
    → All (λ n. is_due earlier n ≡ false) (expire_nodes now_at nodes).1
      × (expire_nodes earlier (expire_nodes now_at nodes).1 ≡ (0, (expire_nodes now_at nodes).1))
unfolding expire_nodes
expire_nodes_settled now_at earlier [] h = (tt, refl)
expire_nodes_settled now_at earlier (node ∷ nodes) h =
    let (settled, again) = expire_nodes_settled now_at earlier nodes h in
    elim (Bool-cases (is_due now_at node)) [
      | inl e ↦ rw e ((refl, settled), rw again)
      | inr e ↦
          let not_due = is_due-earlier now_at earlier node h e in
          rw e ((not_due, settled), rw (not_due, again))
    ]
