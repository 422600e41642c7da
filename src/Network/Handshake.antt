-- ===== src/Network/Handshake.antt =====
-- node/node.go: handleInbound and connectToSeed from the connection to the new peer, without their
-- deadlines and pauses. The decoder of a key is a parameter.
mod Hello
unfoldable pub use Hello.*
pub mod Agreement
use cdml.Common.{Bool, false, Bytes, ◌++◌}
use cdml.Core.Errors.{ok, err, panic}
use cdml.Core.Types.{PubKey}
use cdml.Exec.{Exec, pure, ◌>>=◌, ◌>>◌}
use cdml.Json.{Json}
use cdml.Network.Framing.{Packet, Connection, read_packet}
use cdml.Network.Peer.{Peer, new_peer}

module _ (net : Connection) where
  -- one end of a connection: what arrives, what was written, and whether it was closed
  pub record Wire : Type 0 where
    pub conn : net.Conn
    pub sent : Bytes
    pub is_open : Bool

  module _ (packet_json : Json Packet) (key_json : Json PubKey) where
    -- ReadPacket, the test of the type and Unmarshal of the key; an error closes the connection
    unfoldable pub receive_key : Exec Wire PubKey
    receive_key now w =
        let (r, c) = read_packet net packet_json now w.conn in
        elim (key_of key_json r) [
          | ok pk ↦ (ok pk, record w { conn = c })
          | err e ↦ (err e, record w { conn = c; is_open = false })
          | panic ↦ (panic, record w { conn = c })
        ]

    -- conn.Write of the own key
    unfoldable pub send_key : PubKey → Exec Wire (Unit {0})
    unfolding hello
    send_key own now w = elim (hello packet_json key_json own) [
      | ok frame ↦ (ok tt, record w { sent = w.sent ++ frame })
      | err e ↦ (err e, w)
      | panic ↦ (panic, w)
    ]

    unfoldable pub handle_inbound : PubKey → Bytes → Exec Wire Peer
    unfolding receive_key send_key
    handle_inbound own remote_addr = do
      their_pub ← receive_key
      send_key own
      pure (new_peer their_pub remote_addr)

    -- one round of the loop, once the seed has been dialled
    unfoldable pub connect_to_seed : PubKey → Bytes → Exec Wire Peer
    unfolding receive_key send_key
    connect_to_seed own addr = do
      send_key own
      their_pub ← receive_key
      pure (new_peer their_pub addr)
