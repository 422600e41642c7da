-- ===== src/Network/Handshake/Agreement.antt =====
-- What the two ends of a handshake come to know of each other.
use cdml.Common.{ℕ, ◌+◌, ◌≤◌, Bytes, length, false, ◌++◌, ◌≡◌, refl, ap, arith}
use cdml.Core.Errors.{Error, ok, err}
use cdml.Core.Types.{PubKey}
use cdml.Json.{Json, JsonLaws}
use cdml.Network.Framing.{Packet, Connection, ConnectionLaws, max_packet, encode}
use cdml.Network.Framing.Roundtrip.{read_packet-encode}
use cdml.Network.Peer.{new_peer}
use cdml.Network.Handshake.{
  Wire, hello, hello_packet, receive_key, send_key, handle_inbound, connect_to_seed,
}

module _ (net : Connection) (packet_json : Json Packet) (key_json : Json PubKey) where
  open net use {arriving}

  -- Where handleInbound gives up, it has closed the connection and has written nothing.
  pub inbound_refused :
      (own : PubKey) (addr : Bytes) (now : ℕ) (w w' : Wire net) (e : Error)
      → handle_inbound net packet_json key_json own addr now w ≡ (err e, w')
      → (w'.is_open ≡ false) × (w'.sent ≡ w.sent)
  unfolding handle_inbound receive_key send_key hello
  inbound_refused own addr now w w' e h = ground arith

  module _ (laws : ConnectionLaws net) (packets : JsonLaws packet_json)
      (keys : JsonLaws key_json) where
    -- the key is the one that was sent
    receive_key-hello :
        (pk : PubKey) (payload frame rest : Bytes) (now : ℕ) (w : Wire net)
        → key_json.marshal pk ≡ ok payload
        → encode packet_json (hello_packet payload) ≡ ok frame
        → length frame ≤ 4 + max_packet
        → arriving w.conn ≡ frame ++ rest
        → (w' : Wire net) × (receive_key net packet_json key_json now w ≡ (ok pk, w'))
          × (arriving w'.conn ≡ rest)
          × (w'.sent ≡ w.sent)
          × (w'.is_open ≡ w.is_open)
    unfolding receive_key
    receive_key-hello pk payload frame rest now w coded framed small there =
        let (c, read, left) =
          read_packet-encode net laws packet_json packets (hello_packet payload) frame rest now
            w.conn framed small there in
        (
          record w { conn = c },
          ground (arith, read, keys.unmarshal-marshal pk payload coded),
          left,
          refl,
          refl,
        )

    -- Two nodes that shake hands know each other's key: where the bytes that connectToSeed wrote reach
    -- handleInbound, and the bytes that it answers with come back, the accepting node has a new peer
    -- with the key of the dialling one and the other way round, both connections are open as before,
    -- and what was sent after the handshake is left for the next packets.
    pub handshake_agrees :
        (a b : PubKey) (addr_a addr_b pa pb ha hb more_a more_b : Bytes) (now : ℕ)
        (wa wb : Wire net)
        → key_json.marshal a ≡ ok pa
        → encode packet_json (hello_packet pa) ≡ ok ha
        → length ha ≤ 4 + max_packet
        → key_json.marshal b ≡ ok pb
        → encode packet_json (hello_packet pb) ≡ ok hb
        → length hb ≤ 4 + max_packet
        → arriving wb.conn ≡ ha ++ more_a
        → arriving wa.conn ≡ hb ++ more_b
        → (wa' wb' : Wire net) × (connect_to_seed net packet_json key_json a addr_b now wa
            ≡ (ok (new_peer b addr_b), wa'))
          × (handle_inbound net packet_json key_json b addr_a now wb
              ≡ (ok (new_peer a addr_a), wb'))
          × (wa'.sent ≡ wa.sent ++ ha)
          × (wb'.sent ≡ wb.sent ++ hb)
          × (arriving wa'.conn ≡ more_b)
          × (arriving wb'.conn ≡ more_a)
          × (wa'.is_open ≡ wa.is_open)
          × (wb'.is_open ≡ wb.is_open)
    unfolding connect_to_seed handle_inbound send_key hello
    handshake_agrees a b addr_a addr_b pa pb ha hb more_a more_b now wa wb ca fa sa cb fb sb ta tb =
        let sent_a = record wa { sent = wa.sent ++ ha } in
        let (va, key_b, left_b, same_a, open_a) =
          receive_key-hello b pb hb more_b now sent_a cb fb sb tb in
        let (vb, key_a, left_a, same_b, open_b) =
          receive_key-hello a pa ha more_a now wb ca fa sa ta in
        (
          va,
          record vb { sent = vb.sent ++ hb },
          ground (arith, key_b),
          ground (arith, key_a),
          same_a,
          ap (λ x. x ++ hb) same_b,
          left_b,
          left_a,
          open_a,
          open_b,
        )
