-- ===== src/Node/Links.antt =====
-- No handler changes which peers a node has.
use cdml.Common.{
  none, Option, Option-cases, inl, inr, ℕ, zero, suc, List, [], ◌∷◌, map, ◌≡◌, refl, ap, arith, ◌∙◌,
}
use cdml.Common.Maps.{lookup}
use cdml.Network.Gossip.{select_peers, fanout}
use cdml.Core.Types.{PubKey, PacketType}
use cdml.Core.Errors.{ok}
use cdml.Crypto.KeyPair.{KeyPair}
use cdml.Network.Framing.{Packet}
use cdml.Network.Peer.{Peer, PeerState, send, check_active, enqueue}
use cdml.Node.State.{
  excluding, TxVerifyMsg, Node, NodeLibraries, alter, send_all, broadcast, send_to_peer,
  send_to_originator,
}
use cdml.Node.Handlers.{
  handle_nonce_lock, judge, answer, handle_tx_verify, handle_witness_sig, handle_tx_confirmed,
  dispatch, handle_packet,
}

-- what a connection is, without its queue
abbrev pub link_of : Peer → PubKey × PeerState
link_of p = (p.pub_key, p.state)

unfoldable pub links_of : List Peer → List (PubKey × PeerState)
links_of [] = []
links_of (p ∷ ps) = link_of p ∷ links_of ps

module _ (lib : NodeLibraries) where
  open lib use {packet_json, shuffle}

  -- The peers, the connections without their queues and the mutex are as before.
  pub record SameLinks (s s' : Node lib) : Type 0 where
    pub peers : s'.peers ≡ s.peers
    pub links : links_of s'.conns ≡ links_of s.conns
    pub mutex : s'.mu_held ≡ s.mu_held

  send-link_of : (pkt : Packet) (p : Peer) → link_of (send packet_json pkt p).1 ≡ link_of p
  unfolding send check_active enqueue
  send-link_of pkt p = ground arith

  alter-link_of :
      (i : ℕ) (pkt : Packet) (ps : List Peer)
      → links_of (alter i (λ p. (send packet_json pkt p).1) ps) ≡ links_of ps
  unfolding alter links_of
  alter-link_of i pkt [] = refl
  alter-link_of zero pkt (p ∷ ps) = ground (arith, send-link_of pkt p)
  alter-link_of (suc i) pkt (p ∷ ps) = ap (λ l. link_of p ∷ l) (alter-link_of i pkt ps)

  send_all-link_of :
      (ids : List ℕ) (pkt : Packet) (ps : List Peer)
      → links_of (send_all lib ids pkt ps) ≡ links_of ps
  unfolding send_all
  send_all-link_of [] pkt ps = refl
  send_all-link_of (i ∷ ids) pkt ps =
      send_all-link_of ids pkt (alter i (λ p. (send packet_json pkt p).1) ps)
      ∙ alter-link_of i pkt ps

  broadcast-SameLinks :
      (pkt : Packet) (exclude : Option ℕ) (now : ℕ) (s : Node lib)
      → SameLinks s (broadcast lib pkt exclude now s).1
  unfolding broadcast
  broadcast-SameLinks pkt exclude now s = record {
    peers = refl;
    links =
        send_all-link_of (select_peers shuffle (excluding exclude (map (λ e. e.1) s.peers)) fanout)
          pkt s.conns;
    mutex = refl;
  }

  send_to_peer-SameLinks :
      (i : ℕ) (pkt : Packet) (now : ℕ) (s : Node lib) → SameLinks s (send_to_peer lib i pkt now s).1
  unfolding send_to_peer
  send_to_peer-SameLinks i pkt now s = record {
    peers = refl;
    links = send_all-link_of (i ∷ []) pkt s.conns;
    mutex = refl;
  }

  send_to_originator-SameLinks :
      (from : PubKey) (pkt : Packet) (now : ℕ) (s : Node lib)
      → SameLinks s (send_to_originator lib from pkt now s).1
  unfolding send_to_originator
  send_to_originator-SameLinks from pkt now s = elim (Option-cases (lookup from s.peers)) [
    | inl e ↦ ground arith
    | inr (i, e) ↦
        let sent = send_to_peer-SameLinks i pkt now s in
        record {
          peers = ground (arith, sent.peers);
          links = ground (arith, sent.links);
          mutex = ground (arith, sent.mutex);
        }
  ]

  broadcast-ok :
      (pkt : Packet) (exclude : Option ℕ) (now : ℕ) (s : Node lib)
      → (broadcast lib pkt exclude now s).0 ≡ ok tt
  unfolding broadcast
  broadcast-ok pkt exclude now s = refl

  send_to_originator-ok :
      (from : PubKey) (pkt : Packet) (now : ℕ) (s : Node lib)
      → (send_to_originator lib from pkt now s).0 ≡ ok tt
  unfolding send_to_originator
  send_to_originator-ok from pkt now s = ground arith

  module _ (kp : KeyPair) where
    answer-SameLinks :
        (from : PubKey) (reply pkt : Packet) (now : ℕ) (s : Node lib)
        → SameLinks s (answer lib kp from reply pkt now s).1
    unfolding answer
    answer-SameLinks from reply pkt now s = elim (Option-cases (lookup from s.peers)) [
      | inl e ↦
          let (r, t) = broadcast lib reply none now s in
          let first = broadcast-SameLinks reply none now s in
          let later = broadcast-SameLinks pkt none now t in
          record {
            peers = ground (arith, later.peers, first.peers, broadcast-ok reply none now s);
            links = ground (arith, later.links, first.links, broadcast-ok reply none now s);
            mutex = ground (arith, later.mutex, first.mutex, broadcast-ok reply none now s);
          }
      | inr (i, e) ↦
          let (r, t) = send_to_originator lib from reply now s in
          let first = send_to_originator-SameLinks from reply now s in
          let later = broadcast-SameLinks pkt none now t in
          let done = send_to_originator-ok from reply now s in
          record {
            peers = ground (arith, later.peers, first.peers, done);
            links = ground (arith, later.links, first.links, done);
            mutex = ground (arith, later.mutex, first.mutex, done);
          }
    ]

    judge-SameLinks :
        (msg : TxVerifyMsg) (now : ℕ) (s : Node lib) → SameLinks s (judge lib kp msg now s).1
    unfolding judge
    judge-SameLinks msg now s = ground arith

    handle_nonce_lock-SameLinks :
        (pkt : Packet) (now : ℕ) (s : Node lib) → SameLinks s (handle_nonce_lock lib kp pkt now s).1
    unfolding handle_nonce_lock
    handle_nonce_lock-SameLinks pkt now s = grind (arith, broadcast-SameLinks)

    handle_tx_verify-SameLinks :
        (pkt : Packet) (now : ℕ) (s : Node lib) → SameLinks s (handle_tx_verify lib kp pkt now s).1
    unfolding handle_tx_verify
    handle_tx_verify-SameLinks pkt now s = grind (arith, judge-SameLinks, answer-SameLinks)

    handle_witness_sig-SameLinks :
        (pkt : Packet) (now : ℕ) (s : Node lib)
        → SameLinks s (handle_witness_sig lib kp pkt now s).1
    unfolding handle_witness_sig
    handle_witness_sig-SameLinks pkt now s = grind (arith, broadcast-SameLinks)

    handle_tx_confirmed-SameLinks :
        (pkt : Packet) (now : ℕ) (s : Node lib)
        → SameLinks s (handle_tx_confirmed lib kp pkt now s).1
    unfolding handle_tx_confirmed
    handle_tx_confirmed-SameLinks pkt now s = grind (arith, broadcast-SameLinks)

    dispatch-SameLinks :
        (t : PacketType) (peer : ℕ) (pkt : Packet) (now : ℕ) (s : Node lib)
        → SameLinks s (dispatch lib kp t peer pkt now s).1
    unfolding dispatch
    dispatch-SameLinks PacketType.nonce_lock peer pkt now s = handle_nonce_lock-SameLinks pkt now s
    dispatch-SameLinks PacketType.tx_verify peer pkt now s = handle_tx_verify-SameLinks pkt now s
    dispatch-SameLinks PacketType.tx_witness_sig peer pkt now s =
        handle_witness_sig-SameLinks pkt now s
    dispatch-SameLinks PacketType.tx_confirmed peer pkt now s =
        handle_tx_confirmed-SameLinks pkt now s
    dispatch-SameLinks PacketType.ping peer pkt now s = send_to_peer-SameLinks peer _ now s
    dispatch-SameLinks PacketType.pong peer pkt now s = record {
      peers = refl;
      links = refl;
      mutex = refl;
    }
    dispatch-SameLinks PacketType.handshake peer pkt now s = record {
      peers = refl;
      links = refl;
      mutex = refl;
    }

    -- Whatever packet a peer sends, handling it leaves the table of the peers, the keys and states of the
    -- connections, and the mutex as they were.
    pub handle_packet-SameLinks :
        (peer : ℕ) (pkt : Packet) (now : ℕ) (s : Node lib)
        → SameLinks s (handle_packet lib kp peer pkt now s).1
    unfolding handle_packet
    handle_packet-SameLinks peer pkt now s = dispatch-SameLinks pkt.packet_type peer pkt now s
