-- ===== src/Tests/Connections.antt =====
-- A peer that connects and whose connection breaks, and one that comes when the table is full.
use cdml.Common.{Bytes, replicate, true, false, List, [], ◌∷◌, ◌≡◌, refl, arith}
use cdml.Common.Maps.{insert}
use cdml.Core.Errors.{Res, ok}
use cdml.Network.Framing.{encode, read_packet}
use cdml.Network.Handshake.{Wire, handle_inbound}
use cdml.Network.Peer.{new_peer, closed, close}
use cdml.Node.Config.{Config}
use cdml.Node.Mutex.{add_peer, close_peer, remove_peer}
use cdml.Node.State.{Node, NodeLibraries, new, peer_at, alter}
use cdml.Node.Start.{start_node}
use cdml.Node.Connections.{
  Work, listening, shaking, dialing, adding, pumping, looping, closing, removing, ends, works_of,
  accept, inbound, add, read_one, shut, forget, proceed, Step, one, begun, then,
}
use cdml.Node.Connections.Linked.{Bounded, AllRegistered, removes}
use cdml.Node.Connections.Table.{registered_peers, full_table_freezes}
use cdml.Tests.Accounts.{alice, bob}
use cdml.Tests.Cluster.{keys, lib, registered_disk}
use cdml.Tests.Packets.{in_flight, Packet-discrete}
use cdml.Tests.Peers.{hello_json, key_json, at_bob}

-- a node whose packets are those of a handshake
abbrev greeting : NodeLibraries
greeting = record lib { packet_json = hello_json }

abbrev idle : Node greeting
idle = new greeting registered_disk

abbrev configuration : Config
configuration = record {
  priv_key_path = [];
  db_path = [];
  p2p_addr = 1 ∷ [];
  api_addr = 2 ∷ [];
  seed_peers = (3 ∷ []) ∷ [];
  network_id = [];
}

-- alice connects, and nobody else
abbrev accepts : List (Res (Bytes × Wire in_flight))
accepts = ok (6 ∷ [], at_bob) ∷ []

-- the other goroutines
abbrev rest : List (Work in_flight)
rest = listening [] ∷ dialing (3 ∷ []) [] ∷ []

abbrev linked : Node greeting
linked = record idle { conns = new_peer alice (6 ∷ []) ∷ []; peers = (alice, 0) ∷ [] }

abbrev broken : Node greeting
broken = record linked { conns = record (new_peer alice (6 ∷ [])) { state = closed } ∷ [] }

accepted :
    Step greeting keys in_flight key_json
      (listening accepts ∷ dialing (3 ∷ []) [] ∷ [])
      idle
      (shaking (6 ∷ []) at_bob ∷ rest)
      idle
unfolding proceed accept
accepted =
    one [] (dialing (3 ∷ []) [] ∷ []) (shaking (6 ∷ []) at_bob ∷ listening [] ∷ [])
      (listening accepts) 3 false refl refl refl

shaken :
    Step greeting keys in_flight key_json
      (shaking (6 ∷ []) at_bob ∷ rest)
      idle
      (adding ends (1 ∷ 2 ∷ []) alice (6 ∷ []) ∷ rest)
      idle
unfolding proceed inbound handle_inbound read_packet encode Packet-discrete
shaken =
    one [] rest (adding ends (1 ∷ 2 ∷ []) alice (6 ∷ []) ∷ []) (shaking (6 ∷ []) at_bob) 3 false
      refl refl refl

added :
    Step greeting keys in_flight key_json
      (adding ends (1 ∷ 2 ∷ []) alice (6 ∷ []) ∷ rest)
      idle
      (pumping 0 ∷ looping ends 0 (1 ∷ 2 ∷ []) ∷ rest)
      linked
unfolding proceed add add_peer insert
added =
    one [] rest (pumping 0 ∷ looping ends 0 (1 ∷ 2 ∷ []) ∷ [])
      (adding ends (1 ∷ 2 ∷ []) alice (6 ∷ [])) 3 false refl refl refl

failed :
    Step greeting keys in_flight key_json
      (pumping 0 ∷ looping ends 0 (1 ∷ 2 ∷ []) ∷ rest)
      linked
      (pumping 0 ∷ closing ends 0 ∷ rest)
      linked
unfolding proceed read_one
failed =
    one (pumping 0 ∷ []) rest (closing ends 0 ∷ []) (looping ends 0 (1 ∷ 2 ∷ [])) 3 true refl refl
      refl

shut_it :
    Step greeting keys in_flight key_json
      (pumping 0 ∷ closing ends 0 ∷ rest)
      linked
      (pumping 0 ∷ removing ends alice ∷ rest)
      broken
unfolding proceed shut peer_at alter close
shut_it =
    one (pumping 0 ∷ []) rest (removing ends alice ∷ []) (closing ends 0) 3 false refl refl refl

-- the closed connection is still in the table, and will be removed
registered_peers_example :
    Bounded greeting broken
    × AllRegistered greeting
        (λ key. removes in_flight key (pumping 0 ∷ removing ends alice ∷ rest))
        broken.peers
        broken.conns
unfolding works_of start_node
registered_peers_example =
    registered_peers greeting keys in_flight key_json (λ _. ok tt) configuration accepts (λ _. [])
      registered_disk (pumping 0 ∷ removing ends alice ∷ rest) broken
      (then (then (then (then (then begun accepted) shaken) added) failed) shut_it)

abbrev full : Node greeting
full = record idle { conns = new_peer bob [] ∷ []; peers = replicate 50 (bob, 0) }

abbrev frozen : Node greeting
frozen = record full {
  conns = new_peer bob [] ∷ record (new_peer alice (6 ∷ [])) { state = closed } ∷ [];
  mu_held = true;
}

-- the connection to bob breaks, and its goroutine waits like that of alice
gone :
    Step greeting keys in_flight key_json
      (removing ends alice ∷ removing ends bob ∷ [])
      frozen
      (removing ends alice ∷ removing ends bob ∷ [])
      frozen
unfolding proceed forget remove_peer
gone =
    one (removing ends alice ∷ []) [] (removing ends bob ∷ []) (removing ends bob) 3 false refl refl
      refl

full_table_freezes_example :
    (◌≡◌ {A = List (Work in_flight)} (removing ends alice ∷ []) (removing ends alice ∷ []))
    × (frozen.mu_held ≡ true)
    × (frozen.peers ≡ full.peers)
unfolding proceed add add_peer close_peer remove_peer close peer_at alter
full_table_freezes_example =
    full_table_freezes greeting keys in_flight key_json ends (1 ∷ 2 ∷ []) alice (6 ∷ []) 3 false []
      (removing ends bob ∷ []) (removing ends alice ∷ [])
      (removing ends alice ∷ removing ends bob ∷ []) full frozen frozen refl (omega arith) refl
      (then begun gone)
