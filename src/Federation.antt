-- ===== src/Federation.antt =====
-- The federation, src/federation/: peers and their trust, gossip announcements, and the
-- authorization of federated actions.
pub mod Types
pub mod Peers
pub mod Gossip
pub mod Service
