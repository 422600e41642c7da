-- ===== src/Network.antt =====
-- internal/network: the gossip cache, and the frames of packets.
pub mod Gossip
pub mod Framing
pub mod Peer
pub mod Handshake
