-- ===== src/Network/Handshake/Hello.antt =====
-- node/node.go: the packet of a handshake, and the key in it.
use cdml.Common.{Bool, true, false, not, Bytes, replicate, []}
use cdml.Core.Errors.{Res, fail_if, failure, or_else, ◌>>=◌, ◌>>◌}
use cdml.Core.Types.{PubKey, PacketType, handshake}
use cdml.Json.{Json}
use cdml.Network.Framing.{Packet, encode}

-- the packet of either side; the zero message id
abbrev pub hello_packet : Bytes → Packet
hello_packet payload = record {
  packet_type = handshake;
  msg_id = replicate 32 0;
  payload = payload;
}

-- its bytes: the errors of Marshal and Encode are dropped
unfoldable pub hello : Json Packet → Json PubKey → PubKey → Res Bytes
hello packet_json key_json own = do
  payload ← or_else [] (key_json.marshal own)
  or_else [] (encode packet_json (hello_packet payload))

abbrev pub is_handshake : PacketType → Bool
is_handshake handshake = true
is_handshake _ = false

-- the key in what ReadPacket returned
abbrev pub key_of : Json PubKey → Res Packet → Res PubKey
key_of key_json r = do
  pkt ← r
  fail_if (not (is_handshake pkt.packet_type)) (failure 30)
  key_json.unmarshal pkt.payload
