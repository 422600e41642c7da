-- ===== src/Tests/Peers.antt =====
-- Two nodes that shake hands, and a peer that connects again.
use cdml.Common.{Bytes, true, [], ◌∷◌, ◌++◌, ◌≡◌, refl, arith, ite}
use cdml.Core.Errors.{ok, err, failure}
use cdml.Core.Types.{PubKey}
use cdml.Json.{Json, JsonLaws}
use cdml.Network.Framing.{Packet, encode, put_uint32}
use cdml.Network.Peer.{new_peer}
use cdml.Network.Handshake.{Wire, hello_packet, connect_to_seed, handle_inbound}
use cdml.Network.Handshake.Agreement.{handshake_agrees}
use cdml.Node.State.{Node}
use cdml.Tests.Packets.{in_flight, in_flight_laws, Packet-discrete}
use cdml.Tests.Accounts.{alice, bob}
use cdml.Tests.Cluster.{lib, node}

-- a codec of the packets of a handshake, whose text is the payload
abbrev pub hello_json : Json Packet
hello_json = record {
  marshal = λ pkt.
      ite (Packet-discrete pkt (hello_packet pkt.payload)) (ok pkt.payload) (err (failure 9));
  unmarshal = λ bs. ok (hello_packet bs);
}

hello_json_laws : JsonLaws hello_json
hello_json_laws = record {
  unmarshal-marshal = λ pkt bs h. elim (Packet-discrete pkt (hello_packet pkt.payload)) [
    | yes e ↦ ground arith
    | no n ↦ absurd (ground arith)
  ];
  marshal_calm = λ pkt h. ground arith;
  unmarshal_calm = λ bs h. ground arith;
}

abbrev pub key_json : Json PubKey
key_json = record { marshal = λ key. ok key; unmarshal = λ bs. ok bs }

key_json_laws : JsonLaws key_json
key_json_laws = record {
  unmarshal-marshal = λ key bs h. ground arith;
  marshal_calm = λ key h. ground arith;
  unmarshal_calm = λ bs h. ground arith;
}

abbrev pub hello_of : PubKey → Bytes
hello_of key = 0 ∷ 0 ∷ 0 ∷ 32 ∷ key

abbrev end_of : Bytes → Wire in_flight
end_of arriving = record { conn = arriving; sent = []; is_open = true }

abbrev pub at_alice : Wire in_flight
at_alice = end_of (hello_of bob ++ [])

abbrev pub at_bob : Wire in_flight
at_bob = end_of (hello_of alice ++ 1 ∷ 2 ∷ [])

handshake_agrees_example :
    (wa wb : Wire in_flight) × (connect_to_seed in_flight hello_json key_json alice
        (5 ∷ [])
        3
        at_alice
      ≡ (ok (new_peer bob (5 ∷ [])), wa))
    × (handle_inbound in_flight hello_json key_json bob (6 ∷ []) 3 at_bob
        ≡ (ok (new_peer alice (6 ∷ [])), wb))
    × (wa.sent ≡ [] ++ hello_of alice)
    × (wb.sent ≡ [] ++ hello_of bob)
    × (wa.conn ≡ [])
    × (wb.conn ≡ 1 ∷ 2 ∷ [])
    × (wa.is_open ≡ true)
    × (wb.is_open ≡ true)
unfolding encode put_uint32 Packet-discrete
handshake_agrees_example =
    handshake_agrees in_flight hello_json key_json in_flight_laws hello_json_laws key_json_laws
      alice bob (6 ∷ []) (5 ∷ []) alice bob (hello_of alice) (hello_of bob) (1 ∷ 2 ∷ []) [] 3
      at_alice at_bob refl refl (omega arith) refl refl (omega arith) refl refl

-- the node with an open connection to bob
abbrev linked : Node lib
linked = record node { conns = new_peer bob [] ∷ []; peers = (bob, 0) ∷ [] }
